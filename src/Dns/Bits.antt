-- ===== src/Dns/Bits.antt =====
-- The flag words that `buildLocalResponse` and `servfail` (internal/dns/server.go) write, over every
-- 16-bit word.
use Prim.Native.Nat.{bit_or, bit_and}
use local_vibe.Base.{
  and_true, ℕ, zero, suc, ◌+◌, ◌/◌, ◌%◌, ◌≤◌, ◌<◌, ◌≡◌, refl, Bool, true, false, ◌&&◌, ◌==◌, leb,
  ltb, arith, All, not, get_or, [], ◌∷◌,
}
use local_vibe.Dns.{Msg, reply_flags, get16, rcode_serv_fail}

-- A test passed at every word under a bound.
every_word : (ℕ → Bool) → ℕ → Bool
every_word test zero = true
every_word test (suc bound) = every_word test bound && test bound

every_word-passed :
    (test : ℕ → Bool) (bound w : ℕ) → w < bound → every_word test bound ≡ true → test w ≡ true
unfolding every_word
every_word-passed test zero w below passed = elim below [ ]
every_word-passed test (suc bound) w below passed = ground (arith, every_word-passed test bound w)

-- QR and RA set, RCODE `rcode`, and OPCODE, AA, TC, RD, AD and the rest as in the query.
good_flags : ℕ → ℕ → ℕ → Bool
good_flags x f rcode =
    leb 0x8000 f
    && ltb f 0x10000
    && f % 16 == rcode
    && f / 128 % 2 == 1
    && f / 256 % 128 == x / 256 % 128
    && f / 16 % 8 == x / 16 % 8

table :
    every_word
      (λ x.
        good_flags x (reply_flags x) 0
        && good_flags x (bit_or (reply_flags x) rcode_serv_fail) rcode_serv_fail)
      0x10000
    ≡ true
unfolding every_word good_flags
table = refl

pointer_table : every_word (λ l. bit_and l 0xC0 == 0) 64 ≡ true
unfolding every_word
pointer_table = refl

-- The length of a label has no pointer bits.
pub no_pointer : (n : ℕ) → n < 64 → not (bit_and n 0xC0 == 0) ≡ false
no_pointer n h = rw (every_word-passed _ 64 n h pointer_table) refl

-- A reply's flag word `f` to a query's flag word `x`.
pub record IsReply (x f rcode : ℕ) : Type 0 where
  pub response : 0x8000 ≤ f
  pub word : f < 0x10000
  pub code : f % 16 ≡ rcode
  pub recursion : f / 128 % 2 ≡ 1
  pub kept_high : f / 256 % 128 ≡ x / 256 % 128
  pub kept_low : f / 16 % 8 ≡ x / 16 % 8

good_flags-IsReply : (x f rcode : ℕ) → good_flags x f rcode ≡ true → IsReply x f rcode
unfolding good_flags
good_flags-IsReply x f rcode h = ground arith

pub reply_flags-IsReply : (x : ℕ) → x < 0x10000 → IsReply x (reply_flags x) 0
reply_flags-IsReply x h =
    good_flags-IsReply x _ 0 (and_true _ _ (every_word-passed _ 0x10000 x h table)).0

pub failed_flags-IsReply :
    (x : ℕ) → x < 0x10000 → IsReply x (bit_or (reply_flags x) rcode_serv_fail) 2
failed_flags-IsReply x h =
    good_flags-IsReply x _ 2 (and_true _ _ (every_word-passed _ 0x10000 x h table)).1

abbrev pub IsBytes : Msg → Type 0
IsBytes = All (λ b. b < 256)

get_or_bound : (m : Msg) (i : ℕ) → IsBytes m → get_or m i 0 < 256
get_or_bound [] i h = omega arith
get_or_bound (x ∷ m) zero h = h.0
get_or_bound (x ∷ m) (suc i) h = get_or_bound m i h.1

pub get16_bound : (m : Msg) (i : ℕ) → IsBytes m → get16 m i < 0x10000
get16_bound m i h = omega (arith, get_or_bound m i h, get_or_bound m (i + 1) h)
