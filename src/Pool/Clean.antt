-- ===== src/Pool/Clean.antt =====
-- What the pool holds, and what it hands out.
use oxi_gate.Base.{
  ℕ, zero, suc, ◌≤◌, ◌*◌, ◌≡◌, refl, ◌∙◌, ap, subst, ◌⊎◌, inl, inr, max, ltb, leb, length,
  if◌then◌else◌, some, Option-cases, Bool-cases, true, List, [], ◌∷◌, ◌++◌, All, All-append,
  All-of_append, length-append, arith,
}
use oxi_gate.Pool.{
  BytesMut, ArrayQueue, BufferPool, PooledBuf, State, Step, Reach, acquires, writes, takes_out,
  drops, start, after, fresh, fill, new, acquire, drop, take, into_inner, len,
}

module _ (Bytes : BytesMut) (Queue : ArrayQueue Bytes.B) where
  -- Empty, and new or not much larger than a new one was asked to be.
  abbrev pub IsClean : ℕ → Bytes.B → Type 0
  IsClean capacity b =
      (Bytes.len b ≡ 0) × ((b ≡ fresh Bytes Queue capacity) ⊎ (Bytes.capacity b ≤ capacity * 2))

  abbrev IsHeld : BufferPool Bytes Queue → PooledBuf Bytes Queue → Type 0
  IsHeld pool p = p.capacity ≡ pool.capacity

  abbrev pub IsPool : ℕ → ℕ → BufferPool Bytes Queue → Type 0
  IsPool size capacity pool =
      (pool.capacity ≡ capacity)
      × (Queue.capacity pool.inner ≡ size)
      × (len Bytes Queue pool ≤ size)
      × All (IsClean capacity) (Queue.items pool.inner)

  fresh-IsClean : (capacity : ℕ) → IsClean capacity (fresh Bytes Queue capacity)
  fresh-IsClean capacity = (
    Bytes.len_reserve (Bytes.with_capacity capacity) capacity ∙ Bytes.len_with_capacity capacity,
    inl refl,
  )

  items-pushed :
      (size capacity : ℕ) (xs : List Bytes.B) (b : Bytes.B)
      → IsClean capacity b
      → length xs ≤ size
      → All (IsClean capacity) xs
      → (length (if ltb (length xs) size then xs ++ b ∷ [] else xs) ≤ size)
        × All (IsClean capacity) (if ltb (length xs) size then xs ++ b ∷ [] else xs)
  items-pushed size capacity xs b c bound clean = elim (Bool-cases (ltb (length xs) size)) [
    | inl room ↦ rw room (pushed room, All-append (IsClean capacity) xs (b ∷ []) clean (c, tt))
    | inr full ↦ rw full (bound, clean)
  ]
    where
      pushed : ltb (length xs) size ≡ true → length (xs ++ b ∷ []) ≤ size
      pushed room = ground (arith, length-append xs (b ∷ []))

  push-IsPool :
      (size capacity : ℕ) (b : Bytes.B) (pool : BufferPool Bytes Queue)
      → IsClean capacity b
      → IsPool size capacity pool
      → IsPool size capacity (record pool { inner = Queue.push pool.inner b })
  unfolding len
  push-IsPool size capacity b pool c (same, room, bound, clean) =
      let (bound', clean') = items-pushed size capacity (Queue.items pool.inner) b c bound clean in
      (
        same,
        Queue.capacity_push pool.inner b ∙ room,
        rw (Queue.items_push pool.inner b, room) bound',
        rw (Queue.items_push pool.inner b, room) clean',
      )

  fill-IsPool :
      (n size capacity : ℕ) (q : Queue.Q)
      → IsPool size capacity (record { inner = q; capacity = capacity })
      → IsPool size capacity (record { inner = fill Bytes Queue n capacity q; capacity = capacity })
  unfolding fill
  fill-IsPool zero size capacity q h = h
  fill-IsPool (suc n) size capacity q h =
      fill-IsPool n size capacity (Queue.push q (fresh Bytes Queue capacity))
        (push-IsPool size capacity (fresh Bytes Queue capacity) _ (fresh-IsClean capacity) h)

  new-IsPool :
      (size capacity : ℕ) → IsPool (max size 64) (max capacity 1024) (new Bytes Queue size capacity)
  unfolding new len
  new-IsPool size capacity =
      fill-IsPool (max size 64) (max size 64) (max capacity 1024) (Queue.new (max size 64)) (
        refl,
        Queue.capacity_new (max size 64),
        rw (Queue.items_new (max size 64)) (omega arith),
        rw (Queue.items_new (max size 64)) tt,
      )

  drop-IsPool :
      (size capacity : ℕ) (p : PooledBuf Bytes Queue) (pool : BufferPool Bytes Queue)
      → p.capacity ≡ capacity
      → IsPool size capacity pool
      → IsPool size capacity (drop Bytes Queue p pool)
  unfolding drop
  drop-IsPool size capacity p pool same h = elim (Option-cases p.buf) [
    | inl taken ↦ rw taken h
    | inr (b, held) ↦ elim (Bool-cases (leb (Bytes.capacity b) (p.capacity * 2))) [
      | inl small ↦
          rw (held, small)
            (push-IsPool size capacity (Bytes.clear b) pool
              (Bytes.len_clear b, inr (rw (Bytes.capacity_clear b) (ground arith))) h)
      | inr large ↦ rw (held, large) h
    ]
  ]

  -- A pool with its bounds, and what it hands out.
  acquire-IsPool :
      (size capacity : ℕ) (pool : BufferPool Bytes Queue)
      → IsPool size capacity pool
      → IsPool size capacity (acquire Bytes Queue pool).0
        × ((acquire Bytes Queue pool).1.capacity ≡ capacity)
        × ((b : Bytes.B) × ((acquire Bytes Queue pool).1.buf ≡ some b) × IsClean capacity b)
  unfolding acquire len
  acquire-IsPool size capacity pool (same, room, bound, clean) =
      elim (Option-cases (Queue.pop pool.inner)) [
        | inl nothing ↦
            rw (nothing, acquire)
              (
                (same, room, bound, clean),
                same,
                (fresh Bytes Queue pool.capacity, refl, rw same (fresh-IsClean capacity)),
              )
        | inr ((b, q), popped) ↦
            let split = Queue.pop_some pool.inner q b popped in
            let (c, cs) = subst (All (IsClean capacity)) split clean in
            rw (popped, acquire)
              (
                (
                  same,
                  Queue.capacity_pop pool.inner q b popped ∙ room,
                  omega (arith, ap length split),
                  cs,
                ),
                same,
                (b, refl, c),
              )
      ]

  abbrev IsState : ℕ → ℕ → State Bytes Queue → Type 0
  IsState size capacity s = IsPool size capacity s.pool × All (λ p. p.capacity ≡ capacity) s.out

  -- The buffers that are out, one of them apart.
  apart :
      (capacity : ℕ) (newer older out : List (PooledBuf Bytes Queue)) (p : PooledBuf Bytes Queue)
      → out ≡ newer ++ p ∷ older
      → All (λ p. p.capacity ≡ capacity) out
      → (p.capacity ≡ capacity)
        × ((p' : PooledBuf Bytes Queue)
            → p'.capacity ≡ capacity
            → All (λ p. p.capacity ≡ capacity) (newer ++ p' ∷ older))
        × All (λ p. p.capacity ≡ capacity) (newer ++ older)
  apart capacity newer older out p e h =
      let P : PooledBuf Bytes Queue → Type 0 = λ p. p.capacity ≡ capacity in
      let (new, (same, old)) = All-of_append P newer (p ∷ older) (subst (All P) e h) in
      (
        same,
        λ p' same'. All-append P newer (p' ∷ older) new (same', old),
        All-append P newer older new old,
      )

  into_inner-capacity :
      (p p' : PooledBuf Bytes Queue) (b : Bytes.B)
      → into_inner Bytes Queue p ≡ some (b, p')
      → p'.capacity ≡ p.capacity
  unfolding into_inner
  into_inner-capacity p p' b e = elim (Option-cases p.buf) [
    | inl nothing ↦ absurd (ground arith)
    | inr (b', held) ↦ ground arith
  ]

  Step-IsState :
      (size capacity : ℕ) {s t : State Bytes Queue}
      → Step Bytes Queue s t
      → IsState size capacity s
      → IsState size capacity t
  unfolding take
  Step-IsState size capacity {s} acquires (h, held) =
      let (pool, same, buffer) = acquire-IsPool size capacity s.pool h in (pool, (same, held))
  Step-IsState size capacity {s} (writes newer older p b b' e has) (h, held) =
      let (same, put, rest) = apart capacity newer older s.out p e held in
      (h, put (record p { buf = some b' }) same)
  Step-IsState size capacity {s} (takes_out newer older p p' b e has) (h, held) =
      let (same, put, rest) = apart capacity newer older s.out p e held in
      (drop-IsPool size capacity p' s.pool (into_inner-capacity p p' b has ∙ same) h, rest)
  Step-IsState size capacity {s} (drops newer older p e) (h, held) =
      let (same, put, rest) = apart capacity newer older s.out p e held in
      (drop-IsPool size capacity p s.pool same h, rest)

  Reach-IsState :
      (size capacity : ℕ) {s t : State Bytes Queue}
      → Reach Bytes Queue s t
      → IsState size capacity s
      → IsState size capacity t
  Reach-IsState size capacity start h = h
  Reach-IsState size capacity (after r step) h =
      Step-IsState size capacity step (Reach-IsState size capacity r h)

  -- Whatever its holders write and in whatever order they acquire, take and drop buffers, the pool
  -- holds at most its size, each buffer in it is empty and either new or of at most twice the
  -- pool's capacity, and the next buffer that it hands out is there and holds no byte.
  pub acquire-IsClean :
      (size capacity : ℕ) (s : State Bytes Queue)
      → Reach Bytes Queue (record { pool = new Bytes Queue size capacity; out = [] }) s
      → (len Bytes Queue s.pool ≤ max size 64)
        × All (IsClean (max capacity 1024)) (Queue.items s.pool.inner)
        × ((b : Bytes.B) × ((acquire Bytes Queue s.pool).1.buf ≡ some b) × (Bytes.len b ≡ 0))
  acquire-IsClean size capacity s r =
      let (h, held) =
        Reach-IsState (max size 64) (max capacity 1024) r (new-IsPool size capacity, tt) in
      let (pool, same, (b, out, (empty, kind))) =
        acquire-IsPool (max size 64) (max capacity 1024) s.pool h in
      (h.2, h.3, (b, out, empty))
