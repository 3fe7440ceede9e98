-- ===== src/Secret/Comparing.antt =====
-- `constant_time_eq` of src/secret.rs, and that it is equality.
use Prim.Native.Nat.{bit_or, bit_xor, bit_or-bitwise, bit_xor-bitwise, digits, differ}
use jaynshare.Prelude.{
  ℕ, zero, suc, ◌/◌, ◌%◌, ◌≤◌, max, ◌≡◌, ◌↔◌, refl, sym, ap, subst, Bool, true, false, not, List,
  [], ◌∷◌, length, ◌==◌, nat_eq, Bool-cases, inl, inr, eq_of_==, ==_ne, if◌then◌else◌, arith,
}

-- `a.iter().zip(b).fold(acc, |acc, (x, y)| acc | (x ^ y))`
unfoldable pub difference : ℕ → List ℕ → List ℕ → ℕ
difference acc [] b = acc
difference acc (x ∷ a) [] = acc
difference acc (x ∷ a) (y ∷ b) = difference (bit_or acc (bit_xor x y)) a b

unfoldable pub constant_time_eq : List ℕ → List ℕ → Bool
constant_time_eq a b = if not (length a == length b) then false else difference 0 a b == 0

differ_zero : (x y : ℕ) → (differ x y ≡ 0) ↔ (x ≡ y)
differ_zero zero y = (λ e. omega arith, λ e. omega arith)
differ_zero (suc x) zero = (λ e. omega arith, λ e. omega arith)
differ_zero (suc x) (suc y) =
    let i = differ_zero x y in (λ e. ap suc (i.0 e), λ e. i.1 (omega arith))

xor_digits : (n a b : ℕ) → a ≤ n → (digits (λ c. c) differ n a b ≡ 0) ↔ (a ≡ b)
xor_digits zero a b low = (λ e. omega arith, λ e. omega arith)
xor_digits (suc n) zero b low = (λ e. omega arith, λ e. omega arith)
xor_digits (suc n) (suc a) b low =
    let i = xor_digits n (suc a / 2) (b / 2) (omega arith) in
    let d = differ_zero (suc a % 2) (b % 2) in
    (
      λ e. let half = i.0 (omega arith) in let bit = d.0 (omega arith) in omega arith,
      λ e. let half = i.1 (omega arith) in let bit = d.1 (omega arith) in omega arith,
    )

or_digits : (n a b : ℕ) → a ≤ n → (digits (λ c. c) max n a b ≡ 0) ↔ ((a ≡ 0) × (b ≡ 0))
or_digits zero a b low = (λ e. omega arith, λ e. omega arith)
or_digits (suc n) zero b low = (λ e. omega arith, λ e. omega arith)
or_digits (suc n) (suc a) b low =
    let i = or_digits n (suc a / 2) (b / 2) (omega arith) in
    (λ e. let (half, rest) = i.0 (omega arith) in omega arith, λ e. omega arith)

ap2_cons : {x y : ℕ} {a b : List ℕ} → x ≡ y → a ≡ b → ◌≡◌ {A = List ℕ} (x ∷ a) (y ∷ b)
ap2_cons e f = cc

head_of : {x y : ℕ} {a b : List ℕ} → ◌≡◌ {A = List ℕ} (x ∷ a) (y ∷ b) → x ≡ y
head_of e = cc

tail_of : {x y : ℕ} {a b : List ℕ} → ◌≡◌ {A = List ℕ} (x ∷ a) (y ∷ b) → a ≡ b
tail_of e = cc

xor_zero : (x y : ℕ) → (bit_xor x y ≡ 0) ↔ (x ≡ y)
xor_zero x y =
    subst (λ n. (n ≡ 0) ↔ (x ≡ y)) (sym (λ i. bit_xor-bitwise x y i))
      (xor_digits x x y (omega arith))

or_zero : (x y : ℕ) → (bit_or x y ≡ 0) ↔ ((x ≡ 0) × (y ≡ 0))
or_zero x y =
    subst (λ n. (n ≡ 0) ↔ ((x ≡ 0) × (y ≡ 0))) (sym (λ i. bit_or-bitwise x y i))
      (or_digits x x y (omega arith))

difference-zero :
    (acc : ℕ) (a b : List ℕ)
    → length a ≡ length b
    → (difference acc a b ≡ 0) ↔ ((acc ≡ 0) × (a ≡ b))
unfolding difference
difference-zero acc [] [] same = (λ e. (e, refl), λ e. e.0)
difference-zero acc [] (y ∷ b) same = ground arith
difference-zero acc (x ∷ a) [] same = ground arith
difference-zero acc (x ∷ a) (y ∷ b) same =
    let i = difference-zero (bit_or acc (bit_xor x y)) a b (omega arith) in
    let o = or_zero acc (bit_xor x y) in
    let d = xor_zero x y in
    (
      λ e.
          let (both, rest) = i.0 e in
          let (none_before, same_head) = o.0 both in (none_before, ap2_cons (d.0 same_head) rest),
      λ e. i.1 (o.1 (e.0, d.1 (head_of e.1)), tail_of e.1),
    )

-- The comparison of digests, which looks at every byte, accepts exactly equal ones.
pub constant_time_eq_iff : (a b : List ℕ) → (constant_time_eq a b ≡ true) ↔ (a ≡ b)
unfolding constant_time_eq
constant_time_eq_iff a b = elim (Bool-cases (length a == length b)) [
  | inl same ↦ rw same (
    λ e. ((difference-zero 0 a b (eq_of_== _ _ same)).0 (eq_of_== _ _ e)).1,
    λ e. rw ((difference-zero 0 a b (eq_of_== _ _ same)).1 (refl, e)) refl,
  )
  | inr other ↦ rw other (λ e. cc, λ e. elim (==_ne _ _ other (ap length e)) [ ])
]
