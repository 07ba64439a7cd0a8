-- ===== src/BufferPool/Ownership.antt =====
-- Who owns which buffer: the pool, one handle, or nobody any more.
use mathlib.Core.List.{
  Perm, Nodup, perm_middle, append_assoc, map-append, append-nil, Nodup-cons, Nodup-nil,
  not-mem-nil, Mem, mem-cons,
}
use mathlib.Core.List.Perm
use mathlib.Core.Logic.Or
use native.Mathlib.Bridge.{le_prop}
use robot_brain.Base.{
  ℕ, zero, suc, ◌+◌, ◌<◌, ◌≡◌, refl, ap, List, [], ◌∷◌, ◌++◌, map, arith, length, true,
}
use robot_brain.BufferPool.{BufferPool, Handle, temporary, pooled, create, fill, acquire, release}

abbrev pub buffer : Handle → ℕ
buffer (temporary b) = b
buffer (pooled b) = b

abbrev weight : Handle → ℕ
weight (temporary b) = 0
weight (pooled b) = 1

-- The handles that came from the pool.
abbrev pub count_pooled : List Handle → ℕ
count_pooled [] = 0
count_pooled (h ∷ hs) = weight h + count_pooled hs

-- The buffers allocated so far.
abbrev pub allocated : ℕ → List ℕ
allocated zero = []
allocated (suc n) = n ∷ allocated n

pub record Client : Type 0 where
  pub pool : BufferPool
  -- The handles that are alive, the latest first.
  pub held : List Handle

-- A client acquires a buffer, or lets one of its handles go.
pub data Step (c : Client) : Client → Type 0 where
  acquire_step : Step c (record { pool = (acquire c.pool).1; held = (acquire c.pool).0 ∷ c.held })
  release_step :
      (h : Handle) (before after : List Handle)
      → c.held ≡ before ++ h ∷ after
      → Step c (record { pool = release h c.pool; held = before ++ after })

pub data Reach (count size : ℕ) : Client → Type 0 where
  start : Reach count size (record { pool = create count size; held = [] })
  next : {c d : Client} → Reach count size c → Step c d → Reach count size d

abbrev pub buffers : Client → List ℕ
buffers c = c.pool.pool ++ (map buffer c.held ++ c.pool.freed)

pub record IsOwned (count : ℕ) (c : Client) : Type 0 where
  pub alive : c.pool.alive ≡ true
  pub all : Perm (buffers c) (allocated c.pool.next)
  pub returned : length c.pool.pool + count_pooled c.held ≡ count

count_pooled-append :
    (xs ys : List Handle) → count_pooled (xs ++ ys) ≡ count_pooled xs + count_pooled ys
count_pooled-append [] ys = omega arith
count_pooled-append (x ∷ xs) ys = omega (arith, count_pooled-append xs ys)

-- Filling the stack only moves the new buffers into it.
fill_lem :
    (n : ℕ) (p : BufferPool)
    → p.freed ≡ []
    → Perm p.pool (allocated p.next)
    → let q = fill n p in
      (q.alive ≡ p.alive)
      × (q.freed ≡ [])
      × Perm q.pool (allocated q.next)
      × (length q.pool ≡ length p.pool + n)
unfolding fill
fill_lem zero p f m = (refl, f, m, omega arith)
fill_lem (suc n) p f m =
    let q = record p { pool = p.next ∷ p.pool; next = suc p.next } in
    let (alive, freed, all, size) = fill_lem n q f (Perm.cons p.next m) in
    (alive, freed, all, omega (arith, size))

create-IsOwned : (count size : ℕ) → IsOwned count (record { pool = create count size; held = [] })
unfolding create
create-IsOwned count size =
    let p : BufferPool = record {
      element_size = size;
      pool = [];
      alive = true;
      next = 0;
      freed = [];
    } in
    let (alive, freed, all, len) = fill_lem count p refl (Perm.refl []) in
    record {
      alive = alive;
      all = rw (freed, append-nil (fill count p).pool) all;
      returned = omega (arith, len);
    }

-- The buffer of a handle that goes moves to the front.
split_perm :
    (xs : List ℕ) (before after : List Handle) (h : Handle) (fs : List ℕ)
    → Perm
        (xs ++ (map buffer (before ++ h ∷ after) ++ fs))
        (buffer h ∷ (xs ++ (map buffer (before ++ after) ++ fs)))
split_perm xs before after h fs =
    rw
      (
        map-append buffer before (h ∷ after),
        map-append buffer before after,
        append_assoc (map buffer before) (buffer h ∷ map buffer after) fs,
        append_assoc (map buffer before) (map buffer after) fs,
        ← append_assoc xs (map buffer before) (buffer h ∷ (map buffer after ++ fs)),
        ← append_assoc xs (map buffer before) (map buffer after ++ fs),
      )
      (perm_middle (xs ++ map buffer before) (map buffer after ++ fs))

acquire-IsOwned :
    (count : ℕ) (c : Client) (xs : List ℕ)
    → c.pool.pool ≡ xs
    → IsOwned count c
    → IsOwned count (record { pool = (acquire c.pool).1; held = (acquire c.pool).0 ∷ c.held })
unfolding acquire
acquire-IsOwned count c [] e v =
    let total : 0 + count_pooled c.held ≡ count = rw e at v.returned in
    rw (e, acquire)
      (record {
        alive = v.alive;
        all = Perm.cons c.pool.next (rw e at v.all);
        returned = omega (arith, total);
      })
acquire-IsOwned count c (b ∷ rest) e v =
    let total : suc (length rest) + count_pooled c.held ≡ count = rw e at v.returned in
    rw (e, acquire)
      (record {
        alive = v.alive;
        all = Perm.trans (perm_middle rest (map buffer c.held ++ c.pool.freed)) (rw e at v.all);
        returned = omega (arith, total);
      })

-- A buffer that is freed moves to the end.
freed_perm : (xs ys fs : List ℕ) (b : ℕ) → Perm (xs ++ (ys ++ b ∷ fs)) (b ∷ (xs ++ (ys ++ fs)))
freed_perm xs ys fs b =
    rw (← append_assoc xs ys (b ∷ fs), ← append_assoc xs ys fs) (perm_middle (xs ++ ys) fs)

release-IsOwned :
    (count : ℕ) (c : Client) (h : Handle) (before after : List Handle)
    → c.held ≡ before ++ h ∷ after
    → IsOwned count c
    → IsOwned count (record { pool = release h c.pool; held = before ++ after })
unfolding release
release-IsOwned count c (temporary b) before after e v =
    let held : Perm (c.pool.pool ++ (map buffer (before ++ temporary b ∷ after) ++ c.pool.freed))
        (allocated c.pool.next) =
      rw e at v.all in
    let front = split_perm c.pool.pool before after (temporary b) c.pool.freed in
    record {
      alive = v.alive;
      all =
          Perm.trans (freed_perm c.pool.pool (map buffer (before ++ after)) c.pool.freed b)
            (Perm.trans (Perm.symm front) held);
      returned = omega (
        arith,
        v.returned,
        ap count_pooled e,
        count_pooled-append before (temporary b ∷ after),
        count_pooled-append before after,
      );
    }
release-IsOwned count c (pooled b) before after e v =
    let held : Perm (c.pool.pool ++ (map buffer (before ++ pooled b ∷ after) ++ c.pool.freed))
        (allocated c.pool.next) =
      rw e at v.all in
    let front = split_perm c.pool.pool before after (pooled b) c.pool.freed in
    rw (v.alive, release)
      (record {
        alive = refl;
        all = Perm.trans (Perm.symm front) held;
        returned = omega (
          arith,
          v.returned,
          ap count_pooled e,
          count_pooled-append before (pooled b ∷ after),
          count_pooled-append before after,
        );
      })

Step-IsOwned : {count : ℕ} {c d : Client} → Step c d → IsOwned count c → IsOwned count d
Step-IsOwned {count} {c} acquire_step v = acquire-IsOwned count c c.pool.pool refl v
Step-IsOwned {count} {c} (release_step h before after e) v =
    release-IsOwned count c h before after e v

-- In every run of acquires and releases while the pool lives, each buffer ever allocated is in
-- exactly one place: in the pool, in one live handle, or freed once. The pool and the handles
-- that came from it hold as many buffers as were allocated beforehand.
pub Reach-IsOwned : {count size : ℕ} {c : Client} → Reach count size c → IsOwned count c
Reach-IsOwned {count} {size} start = create-IsOwned count size
Reach-IsOwned (next r s) = Step-IsOwned s (Reach-IsOwned r)

allocated-lt : (n b : ℕ) → Mem b (allocated n) → b < n
allocated-lt zero b m = absurd (not-mem-nil m)
allocated-lt (suc n) b m =
    Or.elim le_prop (mem-cons.0 m) (λ e. omega (arith, e)) (λ k. omega (arith, allocated-lt n b k))

allocated-Nodup : (n : ℕ) → Nodup (allocated n)
allocated-Nodup zero = Nodup-nil
allocated-Nodup (suc n) =
    Nodup-cons.1 ((λ m. absurd (omega (arith, allocated-lt n n m))), allocated-Nodup n)

-- In every run no buffer is twice in the pool, in the live handles and among the freed ones: none is
-- lent out twice at a time, lent out while it lies in the pool, held after it was freed, or freed twice.
pub buffers-Nodup : {count size : ℕ} {c : Client} → Reach count size c → Nodup (buffers c)
buffers-Nodup {c = c} r = Perm.nodup (Perm.symm (Reach-IsOwned r).all) (allocated-Nodup c.pool.next)
