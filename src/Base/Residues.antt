-- ===== src/Base/Residues.antt =====
-- Products and powers modulo a number.
use Prim.Native.Nat.{ℕ, ◌+◌, ◌*◌, ◌/◌, ◌%◌}
use mathlib.Core.Path.{◌≡◌, ◌∙◌, sym, ap}
use native.Mathlib.Nat.{div-add-mod, add-mul, mul_assoc, mul_comm, mul-add-mod_self_left}

-- A factor counts modulo the number.
pub mod-mul-mod : (a b n : ℕ) → a % n * b % n ≡ a * b % n
mod-mul-mod a b n =
    let whole : a * b ≡ n * (a / n * b) + a % n * b =
      ap (λ x. x * b) (sym (div-add-mod a n))
      ∙ add-mul (n * (a / n)) (a % n) b
      ∙ ap (λ x. x + a % n * b) (mul_assoc n (a / n) b) in
    sym (ap (λ x. x % n) whole ∙ mul-add-mod_self_left n (a / n * b) (a % n * b))

pub mul-mod-mod : (a b n : ℕ) → a * (b % n) % n ≡ a * b % n
mul-mod-mod a b n =
    ap (λ x. x % n) (mul_comm a (b % n)) ∙ mod-mul-mod b a n ∙ ap (λ x. x % n) (mul_comm b a)
