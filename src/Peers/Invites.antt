-- ===== src/Peers/Invites.antt =====
-- The codes of invites (internal/peer/pairing.go, `NewInviteCode`).
use local_vibe.Base.{
  ℕ, zero, suc, ◌+◌, ◌-◌, ◌*◌, ◌/◌, ◌%◌, ◌^◌, ◌<◌, ◌≤◌, ◌≡◌, refl, [], ◌∷◌, Text, arith, length,
  value, All,
}
use local_vibe.Peers.Pairing.{padded, new_invite_code}

abbrev IsDigit : ℕ → Type 0
IsDigit c = (b'0' ≤ c) × (c ≤ b'9')

padded-length : (width n : ℕ) (acc : Text) → length (padded width n acc) ≡ width + length acc
unfolding padded
padded-length zero n acc = omega arith
padded-length (suc width) n acc =
    omega (arith, padded-length width (n / 10) ((b'0' + n % 10) ∷ acc))

padded-All : (width n : ℕ) (acc : Text) → All IsDigit acc → All IsDigit (padded width n acc)
unfolding padded
padded-All zero n acc h = h
padded-All (suc width) n acc h =
    padded-All width (n / 10) ((b'0' + n % 10) ∷ acc) ((omega arith, omega arith), h)

value-padded :
    (width n : ℕ) (acc : Text) → n < 10 ^ width → value 0 (padded width n acc) ≡ value n acc
unfolding padded
value-padded zero n acc h = let none_ : n ≡ 0 = omega arith in rw none_ refl
value-padded (suc width) n acc h =
    let back : n / 10 * 10 + (b'0' + n % 10 - b'0') ≡ n = omega arith in
    rw (value-padded width (n / 10) ((b'0' + n % 10) ∷ acc) (grind arith), back) refl

-- An invite code is six decimal digits, which read as the number drawn: no two of the million numbers give the same
-- code.
pub new_invite_code_digits :
    (n : ℕ)
    → n < 1000000
    → (length (new_invite_code n) ≡ 6)
      × All (λ c. (b'0' ≤ c) × (c ≤ b'9')) (new_invite_code n)
      × (value 0 (new_invite_code n) ≡ n)
unfolding new_invite_code
new_invite_code_digits n h =
    (padded-length 6 n [], padded-All 6 n [] tt, value-padded 6 n [] (omega arith))
