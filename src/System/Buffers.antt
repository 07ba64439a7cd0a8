-- ===== src/System/Buffers.antt =====
-- The inference task and the tensor pool: the buffer that a task borrows for the observation.
use robot_brain.Base.{
  ℕ, suc, ◌≡◌, refl, ap, Bool, true, false, Option, none, some, List, [], ◌∷◌, length, arith,
  if_cases, ◌==◌,
}
use robot_brain.Float.{Float, Convert}
use robot_brain.BufferPool.{
  BufferPool, Handle, pooled, create, fill, acquire, take_top, release, give_back,
}
use robot_brain.Brain.{AiBrain, BrainConfig, Job, PolicyModel}
use robot_brain.Brain.Inference.{
  Stage, computed, admitted, over, compute, check_generation, targets_stage,
}
use robot_brain.System as system
use robot_brain.System.{
  Reach, World, boot, tick, assign, sense, start_rt, wake, fetch, run_compute, run_check,
  run_commit, run_release, run_finish, Step, tick_step, task_step, sense_step, start_rt_step,
  wake_step, fetch_step, compute_step, check_step, commit_step, release_step, finish_step,
}

-- `tensor_pool_`, and `obs_buffer` while a task has it.
pub record Lease : Type 0 where
  pub tensor_pool : BufferPool
  pub obs_buffer : Option Handle

-- `auto obs_buffer = tensor_pool_->Acquire();`
unfoldable pub borrow : Lease → Lease
borrow l = let (h, p) = acquire l.tensor_pool in record { tensor_pool = p; obs_buffer = some h }

-- The end of the `try` block runs the deleter of the handle.
unfoldable pub hand_back : Lease → Lease
hand_back l = elim l.obs_buffer [
  | none ↦ l
  | some h ↦ record { tensor_pool = release h l.tensor_pool; obs_buffer = none }
]

module _ {F : Type 0} where
  unfoldable pub leave_at : Stage F → Lease → Lease
  unfolding hand_back
  leave_at over l = hand_back l
  leave_at s l = l

  -- Whether a task at this place has a buffer.
  abbrev pub has_buffer : Stage F → Bool
  has_buffer (computed targets actions) = true
  has_buffer (admitted targets actions) = true
  has_buffer s = false

module _ {F D H : Type 0} ⦃f : Float F⦄ ⦃d : Float D⦄ ⦃c : Convert F D⦄ where
  -- What a step of the threads does to the lease: only the task takes part.
  unfoldable pub lease_after :
      {policy : PolicyModel F H} {v w : World F D H} → Step policy v w → Lease → Lease
  unfolding borrow leave_at
  lease_after {w = w} (compute_step job buffer h e k) l = leave_at w.stage (borrow l)
  lease_after {w = w} (check_step job targets actions h e) l = leave_at w.stage l
  lease_after {w = w} (commit_step job now targets actions h e) l = leave_at w.stage l
  lease_after s l = l

  -- A run of the threads with its lease; the constructor of the brain makes three buffers.
  pub data Leased (policy : PolicyModel F H) (cfg : BrainConfig F) (hidden : H) (now : ℕ)
      : World F D H → Lease → Type 0 where
    start :
        Leased policy cfg hidden now
          (boot cfg hidden now)
          (record { tensor_pool = create 3 cfg.obs_dim; obs_buffer = none })
    next :
        {v w : World F D H} {l : Lease}
        → Leased policy cfg hidden now v l
        → (s : Step policy v w) → Leased policy cfg hidden now w (lease_after s l)

-- The buffer is lent, or all three lie in the pool.
abbrev pub IsLent : Bool → Lease → Type 0
IsLent true l = (b : ℕ) × (l.obs_buffer ≡ some (pooled b)) × (length l.tensor_pool.pool ≡ 2)
IsLent false l = (l.obs_buffer ≡ none) × (length l.tensor_pool.pool ≡ 3)

-- No buffer beyond the three was ever allocated, and none was freed.
pub record IsSteady (size : ℕ) (has : Bool) (l : Lease) : Type 0 where
  pub alive : l.tensor_pool.alive ≡ true
  pub element_size : l.tensor_pool.element_size ≡ size
  pub allocated : l.tensor_pool.next ≡ 3
  pub freed : l.tensor_pool.freed ≡ []
  pub lent : IsLent has l

borrow-IsSteady : (size : ℕ) (l : Lease) → IsSteady size false l → IsSteady size true (borrow l)
unfolding borrow acquire
borrow-IsSteady size l i = from l.tensor_pool.pool refl
  where
    from :
        (xs : List ℕ)
        → l.tensor_pool.pool ≡ xs
        → IsSteady size true (
            let (h, p) = take_top xs l.tensor_pool in
            record { tensor_pool = p; obs_buffer = some h })
    from [] e =
        let three : length l.tensor_pool.pool ≡ 0 = ap length e in
        absurd (omega (arith, three, i.lent.1))
    from (b ∷ rest) e =
        unfold take_top in
        let three : length l.tensor_pool.pool ≡ suc (length rest) = ap length e in
        record {
          alive = i.alive;
          element_size = i.element_size;
          allocated = i.allocated;
          freed = i.freed;
          lent = (b, refl, omega (arith, three, i.lent.1));
        }

hand_back-IsSteady :
    (size : ℕ) (l : Lease) → IsSteady size true l → IsSteady size false (hand_back l)
unfolding hand_back release give_back
hand_back-IsSteady size l i =
    let (b, e, two) = i.lent in
    rw (e, i.alive)
      (record {
        alive = refl;
        element_size = i.element_size;
        allocated = i.allocated;
        freed = i.freed;
        lent = (refl, omega (arith, two));
      })

module _ {F D H : Type 0} ⦃f : Float F⦄ ⦃d : Float D⦄ ⦃c : Convert F D⦄ where
  targets-IsSteady :
      (size : ℕ) (job : Job F) (o : Option (List F)) (b : AiBrain F D H) (l : Lease)
      → IsSteady size true l
      → IsSteady size (has_buffer (targets_stage job o b)) (leave_at (targets_stage job o b) l)
  unfolding targets_stage leave_at
  targets-IsSteady size job none b l i = hand_back-IsSteady size l i
  targets-IsSteady size job (some actions) b l i = i

  Step-IsSteady :
      (size : ℕ) {policy : PolicyModel F H} {v w : World F D H} (s : Step policy v w) (l : Lease)
      → IsSteady size (has_buffer v.stage) l
      → IsSteady size (has_buffer w.stage) (lease_after s l)
  unfolding lease_after tick assign sense start_rt wake fetch run_compute compute run_check
      check_generation run_commit run_release run_finish leave_at
  Step-IsSteady size {policy} {v} (compute_step job buffer h e k) l i =
      targets-IsSteady size job _ v.machine.brain (borrow l) (borrow-IsSteady size l (rw e at i))
  Step-IsSteady size {v = v} (check_step job targets actions h e) l i =
      let has : IsSteady size true l = rw e at i in
      if_cases
        (λ (out : AiBrain F D H × Stage F). IsSteady size (has_buffer out.1) (leave_at out.1 l))
        (job.my_generation == v.machine.brain.task_generation) _ _ (λ _. has)
        (λ _. hand_back-IsSteady size l has)
  Step-IsSteady size (commit_step job now targets actions h e) l i =
      hand_back-IsSteady size l (rw e at i)
  Step-IsSteady size (release_step job elapsed h e) l i = rw e at i
  Step-IsSteady size (finish_step job h e) l i = rw e at i
  Step-IsSteady size (tick_step now) l i = i
  Step-IsSteady size (task_step now t) l i = i
  Step-IsSteady size (sense_step msg) l i = i
  Step-IsSteady size (start_rt_step fifo_ok) l i = i
  Step-IsSteady size (wake_step now planned p q) l i = i
  Step-IsSteady size (fetch_step job rest h e) l i = i

  -- In every interleaving the inference path allocates no buffer after the constructor and frees none:
  -- the task borrows one of the three that were made, of `obs_dim` floats, has it from its computation up
  -- to the end of its `try` block, an exception included, and otherwise all three lie in the pool.
  pub Leased-IsSteady :
      {policy : PolicyModel F H} {cfg : BrainConfig F} {hidden : H} {now : ℕ} {w : World F D H}
      {l : Lease}
      → Leased policy cfg hidden now w l
      → IsSteady cfg.obs_dim (has_buffer w.stage) l
  unfolding boot create fill
  Leased-IsSteady start = record {
    alive = refl;
    element_size = refl;
    allocated = refl;
    freed = refl;
    lent = (refl, refl);
  }
  Leased-IsSteady {cfg = cfg} (next {l = l} r s) = Step-IsSteady cfg.obs_dim s l (Leased-IsSteady r)

  -- Each run of the threads has such a lease.
  pub lease_of :
      {policy : PolicyModel F H} {cfg : BrainConfig F} {hidden : H} {now : ℕ} {w : World F D H}
      → Reach policy cfg hidden now w
      → (l : Lease) × Leased policy cfg hidden now w l
  lease_of system.start = (_, start)
  lease_of (system.next r s) = let (l, q) = lease_of r in (_, next q s)
