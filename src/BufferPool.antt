-- ===== src/BufferPool.antt =====
-- src/RobotBrain/include/engine/infra/buffer_pool.hpp: buffers lent out and given back by the
-- deleter of the handle. A buffer is named by the number of its allocation; its floats are not
-- touched by the pool.
pub mod Ownership
pub mod Stock
use robot_brain.Base.{ℕ, zero, suc, Bool, true, false, List, [], ◌∷◌, ◌++◌}

-- Which deleter a handle carries: the one that frees, or the one that gives back.
pub data Handle : Type 0 where
  temporary : ℕ → Handle
  pooled : ℕ → Handle

pub record BufferPool : Type 0 where
  pub element_size : ℕ
  -- The stack, its top first.
  pub pool : List ℕ
  pub alive : Bool
  -- The allocator: the number of the next buffer, and the buffers that were freed.
  pub next : ℕ
  pub freed : List ℕ

-- `for (i = 0; i < count; ++i) pool_.push(make_unique(size))`
unfoldable pub fill : ℕ → BufferPool → BufferPool
fill zero p = p
fill (suc n) p = fill n (record p { pool = p.next ∷ p.pool; next = suc p.next })

unfoldable pub create : ℕ → ℕ → BufferPool
unfolding fill
create count size =
    fill count (record { element_size = size; pool = []; alive = true; next = 0; freed = [] })

unfoldable pub take_top : List ℕ → BufferPool → Handle × BufferPool
take_top [] p = (temporary p.next, record p { next = suc p.next })
take_top (b ∷ rest) p = (pooled b, record p { pool = rest })

unfoldable pub acquire : BufferPool → Handle × BufferPool
unfolding take_top
acquire p = take_top p.pool p

unfoldable pub give_back : Bool → ℕ → BufferPool → BufferPool
give_back true b p = record p { pool = b ∷ p.pool }
give_back false b p = record p { freed = b ∷ p.freed }

-- The deleter of the handle.
unfoldable pub release : Handle → BufferPool → BufferPool
unfolding give_back
release (temporary b) p = record p { freed = b ∷ p.freed }
release (pooled b) p = give_back p.alive b p

-- `~BufferPool()`: its body, and then the stack with the buffers that lie in it.
unfoldable pub destroy : BufferPool → BufferPool
destroy p = record p { alive = false; pool = []; freed = p.pool ++ p.freed }
