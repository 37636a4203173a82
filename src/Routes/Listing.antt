-- ===== src/Routes/Listing.antt =====
-- `Names` and `List` (internal/daemon/routes.go), and the shape of the table that they rest on.
use mathlib.Core.List.{Mem, mem-cons, not-mem-nil}
use mathlib.Core.List.Perm
use mathlib.Core.Logic.Or
use mathlib.Core.Bool.{Bool-set}
use local_vibe.Base.{
  true, false, ◌≡◌, ◌↔◌, ◌∙◌, refl, sym, ap, inl, inr, Bool-cases, Option, some, List, [], ◌∷◌, map,
  Text, arith, lookup, insert, erase, has_key, lookup-insert, lookup-erase, text_eq, text_eq_iff,
  text_eq_refl, sort_by, insert_by, IsSorted, sort_by-IsSorted, sort_by-perm, text_leb,
}
use local_vibe.Routes.{Route, RouteTable, get, add, remove, keys, values, names, list}

-- A key stands once, and is its route's name.
abbrev pub IsKeyed : List (Text × Route) → Type 0
IsKeyed [] = Unit
IsKeyed ((k, r) ∷ m) = (k ≡ r.name) × (has_key k m ≡ false) × IsKeyed m

has_key-insert :
    (r : Route) (k : Text) (m : List (Text × Route))
    → text_eq k r.name ≡ false
    → has_key k (insert r.name r m) ≡ has_key k m
has_key-insert r k m q =
    ground (arith, lookup-insert r.name k r m, text_eq_iff k r.name, text_eq_iff r.name k)

insert-IsKeyed : (r : Route) (m : List (Text × Route)) → IsKeyed m → IsKeyed (insert r.name r m)
unfolding insert lookup
insert-IsKeyed r [] h = (refl, refl, tt)
insert-IsKeyed r ((k, s) ∷ m) (e, f, h) = elim (Bool-cases (text_eq k r.name)) [
  | inl q ↦ rw q (refl, ground (arith, text_eq_iff k r.name), h)
  | inr q ↦ rw q (e, rw (has_key-insert r k m q) f, insert-IsKeyed r m h)
]

erase-IsKeyed : (n : Text) (m : List (Text × Route)) → IsKeyed m → IsKeyed (erase n m)
unfolding erase
erase-IsKeyed n [] h = tt
erase-IsKeyed n ((k, s) ∷ m) (e, f, h) = elim (Bool-cases (text_eq k n)) [
  | inl q ↦ rw q (erase-IsKeyed n m h)
  | inr q ↦ rw q (e, ground (arith, lookup-erase n k m), erase-IsKeyed n m h)
]

-- Adding and removing keep the table keyed.
pub add-IsKeyed : (t : RouteTable) (r : Route) → IsKeyed t.routes → IsKeyed (add t r).0.routes
unfolding add
add-IsKeyed t r h = insert-IsKeyed r t.routes h

pub remove-IsKeyed : (t : RouteTable) (n : Text) → IsKeyed t.routes → IsKeyed (remove t n).0.routes
unfolding remove
remove-IsKeyed t n h = elim (Bool-cases (has_key n t.routes)) [
  | inl q ↦ rw q (erase-IsKeyed n t.routes h)
  | inr q ↦ rw q h
]

keys-values : (m : List (Text × Route)) → IsKeyed m → keys m ≡ map (λ r. r.name) (values m)
keys-values [] h = refl
keys-values ((k, r) ∷ m) (e, f, h) = cc (keys-values m h)

map-insert_by :
    (r : Route) (rs : List Route)
    → map (λ s. s.name) (insert_by (λ s. s.name) r rs)
      ≡ insert_by (λ n. n) r.name (map (λ s. s.name) rs)
map-insert_by r [] = refl
map-insert_by r (s ∷ rs) = elim (Bool-cases (text_leb r.name s.name)) [
  | inl e ↦ rw e refl
  | inr e ↦ rw e (ap (λ t. s.name ∷ t) (map-insert_by r rs))
]

map-sort_by :
    (rs : List Route)
    → map (λ s. s.name) (sort_by (λ s. s.name) rs) ≡ sort_by (λ n. n) (map (λ s. s.name) rs)
map-sort_by [] = refl
map-sort_by (r ∷ rs) =
    map-insert_by r (sort_by (λ s. s.name) rs) ∙ ap (insert_by (λ n. n) r.name) (map-sort_by rs)

lookup-mem :
    (n : Text) (r : Route) (m : List (Text × Route)) → lookup n m ≡ some r → Mem r (values m)
unfolding lookup
lookup-mem n r [] h = absurd (cc)
lookup-mem n r ((k, s) ∷ m) h = elim (Bool-cases (text_eq k n)) [
  | inl e ↦ mem-cons.1 (Or.inl (cc (rw e at h)))
  | inr e ↦ mem-cons.1 (Or.inr (lookup-mem n r m (rw e at h)))
]

Route-set : IsSet (Option Route)
Route-set = hlevel

mem-has_key :
    (r : Route) (m : List (Text × Route)) → IsKeyed m → Mem r (values m) → has_key r.name m ≡ true
unfolding lookup
mem-has_key r [] h k = absurd (not-mem-nil k)
mem-has_key r ((j, s) ∷ m) (e, f, h) k =
    Or.elim (Bool-set _ _) (mem-cons.0 k) (λ q. rw (e, ← q, text_eq_refl r.name) refl)
      (λ q. ground (arith, mem-has_key r m h q))

mem-lookup :
    (r : Route) (m : List (Text × Route)) → IsKeyed m → Mem r (values m) → lookup r.name m ≡ some r
unfolding lookup
mem-lookup r [] h k = absurd (not-mem-nil k)
mem-lookup r ((j, s) ∷ m) (e, f, h) k =
    Or.elim (Route-set _ _) (mem-cons.0 k) (λ q. rw (e, ← q, text_eq_refl r.name) refl)
      (λ q. ground (arith, mem-lookup r m h q, mem-has_key r m h q, text_eq_iff j r.name))

-- The list is sorted by name, and holds exactly the routes that the table has under their names.
pub list_exact :
    (t : RouteTable)
    → IsKeyed t.routes
    → IsSorted (λ r. r.name) (list t) × ((r : Route) → Mem r (list t) ↔ (get t r.name ≡ some r))
unfolding list get
list_exact t h = (
  sort_by-IsSorted (λ r. r.name) (values t.routes),
  λ r. (
    λ k.
        mem-lookup r t.routes h ((Perm.mem_iff (sort_by-perm (λ s. s.name) (values t.routes))).0 k),
    λ e.
        (Perm.mem_iff (sort_by-perm (λ s. s.name) (values t.routes))).1
          (lookup-mem r.name r t.routes e),
  ),
)

-- `Names` gives the names of the routes of `List`, in the same order.
pub names-list : (t : RouteTable) → IsKeyed t.routes → names t ≡ map (λ r. r.name) (list t)
unfolding names list
names-list t h =
    ap (sort_by (λ n. n)) (keys-values t.routes h) ∙ sym (map-sort_by (values t.routes))

lookup-name :
    (n : Text) (r : Route) (m : List (Text × Route)) → IsKeyed m → lookup n m ≡ some r → r.name ≡ n
unfolding lookup
lookup-name n r [] h e = absurd (cc)
lookup-name n r ((k, q) ∷ m) (a, b, h) e = elim (Bool-cases (text_eq k n)) [
  | inl x ↦
      let same : q ≡ r = ground arith in
      ap (λ v. v.name) (sym same) ∙ (sym a ∙ (text_eq_iff k n).0 x)
  | inr x ↦ lookup-name n r m h (ground arith)
]

pub get-name :
    (t : RouteTable) (n : Text) (r : Route) → IsKeyed t.routes → get t n ≡ some r → r.name ≡ n
unfolding get
get-name t n r h e = lookup-name n r t.routes h e
