-- ===== src/Peers/Marks.antt =====
-- An ETag that tells different lists of summaries apart, for the tests.
use local_vibe.Base.{ℕ, suc, Bool, true, false, ◌≡◌, refl, List, [], ◌∷◌, Text, arith}
use local_vibe.Routes.{RouteType, sticky, pid_tracked, ttl, managed, bookmark}
use local_vibe.Peers.{RouteSummary}

abbrev mark_text : Text → Text → Text
mark_text [] rest = 0 ∷ rest
mark_text (c ∷ s) rest = suc c ∷ mark_text s rest

mark_text_injective : (s t a b : Text) → mark_text s a ≡ mark_text t b → (s ≡ t) × (a ≡ b)
mark_text_injective [] [] a b h = (refl, cc)
mark_text_injective [] (d ∷ t) a b h = absurd (cc)
mark_text_injective (c ∷ s) [] a b h = absurd (cc)
mark_text_injective (c ∷ s) (d ∷ t) a b h =
    let tails : mark_text s a ≡ mark_text t b = cc in
    let (same, rest) = mark_text_injective s t a b tails in let heads : c ≡ d = cc in (cc, rest)

abbrev mark_flag : Bool → ℕ
mark_flag true = 1
mark_flag false = 0

mark_flag_injective : (a b : Bool) → mark_flag a ≡ mark_flag b → a ≡ b
mark_flag_injective a b h = ground arith

abbrev mark_type : RouteType → ℕ
mark_type sticky = 0
mark_type pid_tracked = 1
mark_type ttl = 2
mark_type managed = 3
mark_type bookmark = 4

mark_type_injective : (a b : RouteType) → mark_type a ≡ mark_type b → a ≡ b
mark_type_injective a b h = ground arith

abbrev mark_summary : RouteSummary → Text → Text
mark_summary r rest =
    mark_text r.name
      (mark_type r.type ∷ mark_flag r.running ∷ mark_flag r.ready ∷ mark_text r.icon rest)

mark_summary_injective :
    (r q : RouteSummary) (a b : Text) → mark_summary r a ≡ mark_summary q b → (r ≡ q) × (a ≡ b)
mark_summary_injective r q a b h =
    let (name, rest) = mark_text_injective r.name q.name _ _ h in
    let type = mark_type_injective r.type q.type (cc) in
    let running = mark_flag_injective r.running q.running (cc) in
    let ready = mark_flag_injective r.ready q.ready (cc) in
    let tail : mark_text r.icon a ≡ mark_text q.icon b = cc in
    let (icon, last) = mark_text_injective r.icon q.icon a b tail in (cc, last)

abbrev pub mark : List RouteSummary → Text
mark [] = 0 ∷ []
mark (r ∷ rs) = 1 ∷ mark_summary r (mark rs)

pub mark_injective : (l m : List RouteSummary) → mark l ≡ mark m → l ≡ m
mark_injective [] [] h = refl
mark_injective [] (q ∷ qs) h = absurd (cc)
mark_injective (r ∷ rs) [] h = absurd (cc)
mark_injective (r ∷ rs) (q ∷ qs) h =
    let tails : mark_summary r (mark rs) ≡ mark_summary q (mark qs) = cc in
    let (head, rest) = mark_summary_injective r q (mark rs) (mark qs) tails in
    let tail = mark_injective rs qs rest in cc
