-- ===== src/Rbac/Passwords.antt =====
-- admin/rbac/service.go: what the stored form of a password determines.
use pmi.Base.{
  false, if◌then◌else◌, bit_xor, ℕ, zero, suc, ◌+◌, ◌-◌, ◌*◌, ◌/◌, ◌%◌, ◌<◌, ◌≡◌, refl, sym, ap,
  ◌∙◌, ◌↔◌, Bool, true, ◌&&◌, List, [], ◌∷◌, arith, ltb, ◌==◌, if◌then◌else◌, All,
}
use pmi.Rbac.{hex_digit, hash_password, bytes_equal, verify_password}

-- The mask, put on twice, is off again, and keeps a byte a byte.
comes_back : ℕ → Bool
comes_back x = bit_xor (bit_xor x 0x5A) 0x5A == x && ltb (bit_xor x 0x5A) 256

come_back : ℕ → Bool
come_back zero = true
come_back (suc n) = let rest = come_back n in if comes_back n then rest else false

come_back_each : (x n : ℕ) → x < n → come_back n ≡ true → comes_back x ≡ true
unfolding come_back
come_back_each x zero lt h = absurd (omega arith)
come_back_each x (suc n) lt h = ground (arith, come_back_each x n)

bytes_come_back : come_back 256 ≡ true
unfolding come_back comes_back
bytes_come_back = refl

toggle : (x : ℕ) → x < 256 → (bit_xor (bit_xor x 0x5A) 0x5A ≡ x) × (bit_xor x 0x5A < 256)
unfolding comes_back
toggle x h = ground (arith, come_back_each x 256 h bytes_come_back)

-- Reads a hexadecimal digit back.
digit_value : ℕ → ℕ
digit_value c = if ltb c 58 then c - 48 else c - 87

-- The password of a stored form.
recover : List ℕ → List ℕ
recover (hi ∷ lo ∷ rest) = bit_xor (digit_value hi * 16 + digit_value lo) 0x5A ∷ recover rest
recover _ = []

digits_back :
    (b : ℕ) → b < 256 → digit_value (hex_digit (b / 16)) * 16 + digit_value (hex_digit (b % 16)) ≡ b
unfolding digit_value hex_digit
digits_back b h = ground arith

-- The stored form of a password, whose bytes are below 256, gives the password back.
recover-hash_password :
    (password : List ℕ) → All (λ b. b < 256) password → recover (hash_password password) ≡ password
unfolding recover hash_password
recover-hash_password [] h = refl
recover-hash_password (b ∷ bs) h =
    let (back, small) = toggle b h.0 in
    rw (digits_back (bit_xor b 0x5A) small, back) (ap (◌∷◌ b) (recover-hash_password bs h.1))

bytes_equal_iff : (xs ys : List ℕ) → (bytes_equal xs ys ≡ true) ↔ (xs ≡ ys)
unfolding bytes_equal
bytes_equal_iff [] [] = (λ e. refl, λ e. refl)
bytes_equal_iff [] (y ∷ ys) = (λ e. cc, λ e. cc)
bytes_equal_iff (x ∷ xs) [] = (λ e. cc, λ e. cc)
bytes_equal_iff (x ∷ xs) (y ∷ ys) =
    (λ e. ground (arith, bytes_equal_iff xs ys), λ e. ground (arith, bytes_equal_iff xs ys))

-- Against the stored form of one password exactly that password verifies, where both consist of
-- bytes, which are below 256.
pub verify_password_iff :
    (password stored : List ℕ)
    → All (λ b. b < 256) password
    → All (λ b. b < 256) stored
    → (verify_password password (hash_password stored) ≡ true) ↔ (password ≡ stored)
unfolding verify_password
verify_password_iff password stored h g =
    let same = bytes_equal_iff (hash_password password) (hash_password stored) in
    (
      λ e.
          sym (recover-hash_password password h)
          ∙ ap recover (same.0 e)
          ∙ recover-hash_password stored g,
      λ e. same.1 (ap hash_password e),
    )
