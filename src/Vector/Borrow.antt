-- ===== src/Vector/Borrow.antt =====
-- `vector_borrow` and `vector_return`.
use vigor.Prelude.{ℕ, ◌≡◌, ap, fun_ext, arith}
use vigor.Vector.{Vector, vector_borrow, vector_return}

-- Giving a borrowed element back unchanged changes nothing.
pub vector_return-borrow {ℓ} :
    {A : Type ℓ} (v : Vector A) (i : ℕ) → vector_return v i (vector_borrow v i) ≡ v
unfolding vector_borrow vector_return
vector_return-borrow v i = ap (λ a. record v { items = a }) (fun_ext (λ j. ground arith))
