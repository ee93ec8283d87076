-- ===== src/Pool/Tests.antt =====
-- A buffer as its bytes beside its capacity, the bounded queue as a list, and a run of a pool of 64
-- buffers: one is acquired, written to and dropped.
use oxi_gate.Base.{
  ℕ, ◌≤◌, ◌+◌, ◌≡◌, refl, max, ltb, length, if◌then◌else◌, Text, codes, Option, none, some, List,
  [], ◌∷◌, ◌++◌, All,
}
use oxi_gate.Pool.{
  BytesMut, ArrayQueue, PooledBuf, as_mut, fill, State, Reach, start, after, acquires, writes,
  drops, acquire, take, new, drop, len,
}
use oxi_gate.Pool.Clean.{IsClean, acquire-IsClean}

abbrev vectors : BytesMut
vectors = record {
  B = Text × ℕ;
  with_capacity = λ n. ([], n);
  reserve = λ b n. (b.0, max b.1 (length b.0 + n));
  clear = λ b. ([], b.1);
  len = λ b. length b.0;
  capacity = λ b. b.1;
  len_with_capacity = λ n. refl;
  len_reserve = λ b n. refl;
  len_clear = λ b. refl;
  capacity_clear = λ b. refl;
}

abbrev first_of : List (Text × ℕ) × ℕ → Option ((Text × ℕ) × (List (Text × ℕ) × ℕ))
first_of ([], n) = none
first_of (b ∷ bs, n) = some (b, (bs, n))

first_of-none : (q : List (Text × ℕ) × ℕ) → first_of q ≡ none → q.0 ≡ []
first_of-none ([], n) e = refl
first_of-none (b ∷ bs, n) e = cc

first_of-some :
    (q q' : List (Text × ℕ) × ℕ) (b : Text × ℕ)
    → first_of q ≡ some (b, q')
    → (q.0 ≡ b ∷ q'.0) × (q'.1 ≡ q.1)
first_of-some ([], n) q' b e = cc
first_of-some (b ∷ bs, n) q' b' e = (cc, cc)

abbrev lists : ArrayQueue (Text × ℕ)
lists = record {
  Q = List (Text × ℕ) × ℕ;
  new = λ n. ([], n);
  push = λ q b. (if ltb (length q.0) q.1 then q.0 ++ b ∷ [] else q.0, q.1);
  pop = first_of;
  capacity = λ q. q.1;
  items = λ q. q.0;
  items_new = λ n. refl;
  capacity_new = λ n. refl;
  items_push = λ q b. refl;
  capacity_push = λ q b. refl;
  pop_none = first_of-none;
  pop_some = λ q q' b e. (first_of-some q q' b e).0;
  capacity_pop = λ q q' b e. (first_of-some q q' b e).1;
}

abbrev first : State vectors lists
first = record { pool = new vectors lists 0 0; out = [] }

abbrev holder : PooledBuf vectors lists
holder = record { buf = some ([], 1024); capacity = 1024 }

abbrev writer : PooledBuf vectors lists
writer = record { buf = some (codes "GET /", 1024); capacity = 1024 }

abbrev last : State vectors lists
last = record { pool = drop vectors lists writer (take vectors lists first).pool; out = [] }

one_round : Reach vectors lists first last
unfolding take acquire new fill as_mut
one_round =
    after
      (after (after start acquires)
        (writes [] [] holder ([], 1024) (codes "GET /", 1024) refl refl))
      (drops [] [] writer refl)

acquire-IsClean_example :
    (len vectors lists last.pool ≤ max 0 64)
    × All (IsClean vectors lists (max 0 1024)) (lists.items last.pool.inner)
    × ((b : Text × ℕ) × ((acquire vectors lists last.pool).1.buf ≡ some b) × (length b.0 ≡ 0))
acquire-IsClean_example = acquire-IsClean vectors lists 0 0 last one_round

-- All the 64 buffers are back, and a buffer that grew past twice the capacity stays out.
full_again : len vectors lists last.pool ≡ 64
unfolding len drop take acquire new fill
full_again = refl

grown :
    len vectors lists
      (drop vectors lists (record writer { buf = some ([], 2049) }) (take vectors lists first).pool)
    ≡ 63
unfolding len drop take acquire new fill
grown = refl
