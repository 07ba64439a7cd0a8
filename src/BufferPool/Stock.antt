-- ===== src/BufferPool/Stock.antt =====
-- The stock of a pool: which buffers it can lend out. In which order does not matter to a client.
use mathlib.Core.List.{Perm}
use mathlib.Core.List.Perm
use mathlib.Core.Quot
use mathlib.Core.Quot.{Quot, Quot-set}
use mathlib.Core.List.{foldr}
use robot_brain.Base.{arith, ap, sym, ◌∙◌, ℕ, suc, ◌≡◌, refl, List, [], ◌∷◌, true}
use robot_brain.BufferPool.{
  BufferPool, Handle, temporary, pooled, acquire, take_top, release, give_back,
}

-- Lists of buffers up to order.
abbrev pub Stock : Type 0
Stock = Quot (λ (xs ys : List ℕ). Perm xs ys)

abbrev pub stock : BufferPool → Stock
stock p = Quot.mk p.pool

pub add : ℕ → Stock → Stock
add b = Quot.lift Quot-set (λ xs. Quot.mk (b ∷ xs)) (λ xs ys h. Quot.sound (Perm.cons b h))

pub add_comm : (a b : ℕ) (s : Stock) → add a (add b s) ≡ add b (add a s)
unfolding add
add_comm a b = Quot.ind (λ s. Quot-set _ _) (λ xs. Quot.sound (Perm.swap _ _ xs))

-- What giving a handle back adds: a temporary buffer is freed and never enters the pool.
unfoldable pub give : Handle → Stock → Stock
give (temporary b) s = s
give (pooled b) s = add b s

give_comm : (h k : Handle) (s : Stock) → give h (give k s) ≡ give k (give h s)
unfolding give
give_comm (temporary a) k s = refl
give_comm (pooled a) (temporary b) s = refl
give_comm (pooled a) (pooled b) s = add_comm a b s

release-alive : (h : Handle) (p : BufferPool) → (release h p).alive ≡ p.alive
unfolding release
release-alive (temporary b) p = refl
release-alive (pooled b) p = ground arith

stock-release :
    (h : Handle) (p : BufferPool) → p.alive ≡ true → stock (release h p) ≡ give h (stock p)
unfolding release give give_back add
stock-release (temporary b) p e = refl
stock-release (pooled b) p e = rw e refl

-- The handles are let go one after the other, the last of the list first.
unfoldable pub release_all : List Handle → BufferPool → BufferPool
release_all hs p = foldr release p hs

release_all-alive : (hs : List Handle) (p : BufferPool) → (release_all hs p).alive ≡ p.alive
unfolding release_all
release_all-alive [] p = refl
release_all-alive (h ∷ hs) p = release-alive h (release_all hs p) ∙ release_all-alive hs p

stock-release_all :
    (hs : List Handle) (p : BufferPool)
    → p.alive ≡ true
    → stock (release_all hs p) ≡ foldr give (stock p) hs
unfolding release_all
stock-release_all [] p e = refl
stock-release_all (h ∷ hs) p e =
    stock-release h (release_all hs p) (release_all-alive hs p ∙ e)
    ∙ ap (give h) (stock-release_all hs p e)

-- While the pool lives, letting handles go in another order leaves it with the same stock.
pub stock-release_perm :
    (hs ks : List Handle) (p : BufferPool)
    → p.alive ≡ true
    → Perm hs ks
    → stock (release_all hs p) ≡ stock (release_all ks p)
stock-release_perm hs ks p e same =
    stock-release_all hs p e
    ∙ Perm.foldr-eq Quot-set give give_comm same (stock p)
    ∙ sym (stock-release_all ks p e)

-- To acquire a buffer and let it go at once gives the pool back as it was, but for a temporary buffer,
-- which is allocated and freed when the pool is empty.
pub release-acquire :
    (p : BufferPool)
    → p.alive ≡ true
    → let (h, q) = acquire p in
      release h q
      ≡ (elim p.pool [ [] ↦ record p { next = suc p.next; freed = p.next ∷ p.freed } | _ ↦ p ])
unfolding acquire release take_top give_back
release-acquire p e = ground (arith, e)

take_top-stock :
    (xs : List ℕ) (p : BufferPool)
    → p.pool ≡ xs
    → let (h, q) = take_top xs p in stock p ≡ give h (stock q)
unfolding take_top give add
take_top-stock [] p e = refl
take_top-stock (b ∷ rest) p e = ap (λ ys. Quot.mk ys) e

-- Acquiring takes out of the stock just the buffer that its handle gives back.
pub stock-acquire : (p : BufferPool) → let (h, q) = acquire p in stock p ≡ give h (stock q)
unfolding acquire
stock-acquire p = take_top-stock p.pool p refl
