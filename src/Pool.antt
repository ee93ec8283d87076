-- ===== src/Pool.antt =====
-- src/pool.rs: the pool of buffers. A `BytesMut` and the bounded queue are interfaces: their
-- operations, and the laws that their crates document. The clones of a pool share one queue, which
-- is the state; each call on the queue is atomic, so the steps of many tasks interleave in any order.
pub mod Clean
mod Tests
use oxi_gate.Base.{
  ℕ, zero, suc, ◌*◌, ◌≡◌, max, leb, ltb, length, if◌then◌else◌, Option, none, some, List, [], ◌∷◌,
  ◌++◌,
}

-- bytes::BytesMut
pub record BytesMut : Type 1 where
  pub B : Type 0
  pub with_capacity : ℕ → B
  pub reserve : B → ℕ → B
  pub clear : B → B
  pub len : B → ℕ
  pub capacity : B → ℕ
  pub len_with_capacity : (n : ℕ) → len (with_capacity n) ≡ 0
  pub len_reserve : (b : B) (n : ℕ) → len (reserve b n) ≡ len b
  pub len_clear : (b : B) → len (clear b) ≡ 0
  pub capacity_clear : (b : B) → capacity (clear b) ≡ capacity b

-- crossbeam_queue::ArrayQueue: a push on a full queue gives the item back, and the caller drops it.
pub record ArrayQueue (A : Type 0) : Type 1 where
  pub Q : Type 0
  pub new : ℕ → Q
  pub push : Q → A → Q
  pub pop : Q → Option (A × Q)
  pub capacity : Q → ℕ
  pub items : Q → List A
  pub items_new : (n : ℕ) → items (new n) ≡ []
  pub capacity_new : (n : ℕ) → capacity (new n) ≡ n
  pub items_push :
      (q : Q) (a : A)
      → items (push q a)
        ≡ (if ltb (length (items q)) (capacity q) then items q ++ a ∷ [] else items q)
  pub capacity_push : (q : Q) (a : A) → capacity (push q a) ≡ capacity q
  pub pop_none : (q : Q) → pop q ≡ none → items q ≡ []
  pub pop_some : (q q' : Q) (a : A) → pop q ≡ some (a, q') → items q ≡ a ∷ items q'
  pub capacity_pop : (q q' : Q) (a : A) → pop q ≡ some (a, q') → capacity q' ≡ capacity q

module _ (Bytes : BytesMut) (Queue : ArrayQueue Bytes.B) where
  abbrev pub fresh : ℕ → Bytes.B
  fresh buf_capacity = Bytes.reserve (Bytes.with_capacity buf_capacity) buf_capacity

  pub record BufferPool : Type 0 where
    pub inner : Queue.Q
    pub capacity : ℕ

  -- `for _ in 0..size`
  unfoldable pub fill : ℕ → ℕ → Queue.Q → Queue.Q
  fill zero buf_capacity q = q
  fill (suc n) buf_capacity q = fill n buf_capacity (Queue.push q (fresh buf_capacity))

  unfoldable pub new : ℕ → ℕ → BufferPool
  unfolding fill
  new size buf_capacity =
      let size = max size 64 in
      let buf_capacity = max buf_capacity 1024 in
      record { inner = fill size buf_capacity (Queue.new size); capacity = buf_capacity }

  unfoldable pub with_defaults : BufferPool
  unfolding new
  with_defaults = new 4096 (16 * 1024)

  -- `buf` is empty once the buffer is taken out.
  pub record PooledBuf : Type 0 where
    pub buf : Option Bytes.B
    pub capacity : ℕ

  unfoldable pub acquire : BufferPool → BufferPool × PooledBuf
  acquire pool = elim (Queue.pop pool.inner) [
    | some (b, q) ↦ (record pool { inner = q }, record { buf = some b; capacity = pool.capacity })
    | none ↦ (pool, record { buf = some (fresh pool.capacity); capacity = pool.capacity })
  ]

  unfoldable pub len : BufferPool → ℕ
  len pool = length (Queue.items pool.inner)

  -- The buffer to write to; `none` is the panic of `expect`.
  unfoldable pub as_mut : PooledBuf → Option Bytes.B
  as_mut p = p.buf

  -- The buffer, and what is left to drop.
  unfoldable pub into_inner : PooledBuf → Option (Bytes.B × PooledBuf)
  into_inner p = elim p.buf [ none ↦ none | some b ↦ some (b, record p { buf = none }) ]

  unfoldable pub drop : PooledBuf → BufferPool → BufferPool
  drop p pool = elim p.buf [
    | none ↦ pool
    | some b ↦
        if leb (Bytes.capacity b) (p.capacity * 2)
        then record pool { inner = Queue.push pool.inner (Bytes.clear b) }
        else pool
  ]

  -- The pool and the buffers that are out.
  pub record State : Type 0 where
    pub pool : BufferPool
    pub out : List PooledBuf

  unfoldable pub take : State → State
  unfolding acquire
  take s = let (pool, p) = acquire s.pool in record { pool = pool; out = p ∷ s.out }

  -- What holders of buffers do: a write leaves any buffer in place of the old one.
  pub data Step : State → State → Type 0 where
    acquires : {s : State} → Step s (take s)
    writes :
        {s : State} (newer older : List PooledBuf) (p : PooledBuf) (b b' : Bytes.B)
        → s.out ≡ newer ++ p ∷ older
        → as_mut p ≡ some b
        → Step s (record s { out = newer ++ record p { buf = some b' } ∷ older })
    takes_out :
        {s : State} (newer older : List PooledBuf) (p p' : PooledBuf) (b : Bytes.B)
        → s.out ≡ newer ++ p ∷ older
        → into_inner p ≡ some (b, p')
        → Step s (record { pool = drop p' s.pool; out = newer ++ older })
    drops :
        {s : State} (newer older : List PooledBuf) (p : PooledBuf)
        → s.out ≡ newer ++ p ∷ older
        → Step s (record { pool = drop p s.pool; out = newer ++ older })

  pub data Reach : State → State → Type 0 where
    start : {s : State} → Reach s s
    after : {s t u : State} → Reach s t → Step t u → Reach s u
