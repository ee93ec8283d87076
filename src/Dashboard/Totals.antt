-- ===== src/Dashboard/Totals.antt =====
-- The sums that the dashboard shows, against each other.
use oxi_gate.Base.{
  ℕ, ◌+◌, ◌%◌, ◌≡◌, ◌≢◌, refl, Text, codes, starts_with, str_eq, rsplit_once, lines, lookup, insert,
  update, or_default, text_Eq, Bool, true, false, Bool-cases, Option-cases, if◌then◌else◌, Option,
  none, some, List, [], ◌∷◌, All, inl, inr, arith, is_empty, ◌||◌,
}
use oxi_gate.Dashboard.Stats.{
  ℤ, u64_mod, Stats, no_stats, label, add_to, count_requests, read_sample, read_line, read_lines,
  read_metrics,
}
use oxi_gate.Machine.{Float}

abbrev pub total : List (Text × ℕ) → ℕ
total [] = 0
total ((k, v) ∷ m) = v + total m

total-insert :
    (k : Text) (v : ℕ) (m : List (Text × ℕ))
    → total (insert k v m) + or_default (lookup k m) 0 ≡ total m + v
unfolding insert lookup
total-insert k v [] = omega arith
total-insert k v ((j, w) ∷ m) = ground (arith, total-insert k v m)

total-add_to :
    (k : Text) (v : ℕ) (m : List (Text × ℕ))
    → total (add_to (some k) v m) % u64_mod ≡ (total m + v) % u64_mod
unfolding add_to update
total-add_to k v m = omega (arith, total-insert k ((or_default (lookup k m) 0 + v) % u64_mod) m)

-- Every sample of the request counter carries this label.
abbrev pub IsLabelled : Text → Text → Type 0
IsLabelled key line =
    (name_labels value : Text)
    → rsplit_once line b' ' ≡ some (name_labels, value)
    → starts_with name_labels (codes "oxigate_requests_total{") ≡ true
    → label name_labels key ≢ none

module _ (F : Float) (parse_f64 : Text → Option F.F64) (as_u64 : F.F64 → ℕ)
    (as_i64 : F.F64 → ℤ) where
  abbrev IsInStep : Stats → Type 0
  IsInStep s =
      (total s.by_status % u64_mod ≡ s.requests_total)
      × (total s.by_method % u64_mod ≡ s.requests_total)

  added :
      (o : Option Text) (v n : ℕ) (m : List (Text × ℕ))
      → o ≢ none
      → total m % u64_mod ≡ n
      → total (add_to o v m) % u64_mod ≡ (n + v) % u64_mod
  added none v n m h e = absurd (h refl)
  added (some k) v n m h e = omega (arith, total-add_to k v m)

  if-IsInStep : (c : Bool) (s t : Stats) → IsInStep s → IsInStep t → IsInStep (if c then s else t)
  if-IsInStep true s t p q = p
  if-IsInStep false s t p q = q

  read_sample-IsInStep :
      (name_labels : Text) (v : F.F64) (s : Stats)
      → (starts_with name_labels (codes "oxigate_requests_total{") ≡ true
          → label name_labels (codes "status") ≢ none)
      → (starts_with name_labels (codes "oxigate_requests_total{") ≡ true
          → label name_labels (codes "method") ≢ none)
      → IsInStep s
      → IsInStep (read_sample F parse_f64 as_u64 as_i64 name_labels v s)
  unfolding read_sample count_requests
  read_sample-IsInStep name_labels v s h k (p, q) =
      elim (Bool-cases (starts_with name_labels (codes "oxigate_requests_total{"))) [
        | inl counts ↦ rw counts (
          added (label name_labels (codes "status")) (as_u64 v) s.requests_total s.by_status
              (h counts) p,
          added (label name_labels (codes "method")) (as_u64 v) s.requests_total s.by_method
              (k counts) q,
        )
        | inr other ↦ rw other (
            if-IsInStep (starts_with name_labels (codes "oxigate_upstream_health{")) _ _ (p, q)
              (if-IsInStep (starts_with name_labels (codes "oxigate_upstream_connections{")) _ _
                (p, q)
                (if-IsInStep (str_eq name_labels (codes "oxigate_active_connections")) _ _ (p, q)
                  (if-IsInStep (str_eq name_labels (codes "oxigate_retries_total")) _ _ (p, q)
                    (p, q)))))
      ]

  read_line-IsInStep :
      (line : Text) (s : Stats)
      → IsLabelled (codes "status") line
      → IsLabelled (codes "method") line
      → IsInStep s
      → IsInStep (read_line F parse_f64 as_u64 as_i64 line s)
  unfolding read_line
  read_line-IsInStep line s h k p =
      elim (Bool-cases (starts_with line (codes "#") || is_empty line)) [
        | inl skipped ↦ rw skipped p
        | inr sample ↦ elim (Option-cases (rsplit_once line b' ')) [
          | inl missing ↦ rw (sample, missing) p
          | inr ((name_labels, value), found) ↦
              rw (sample, found)
                (read_sample-IsInStep name_labels _ s (h name_labels value found)
                  (k name_labels value found) p)
        ]
      ]

  read_lines-IsInStep :
      (ls : List Text) (s : Stats)
      → All (IsLabelled (codes "status")) ls
      → All (IsLabelled (codes "method")) ls
      → IsInStep s
      → IsInStep (read_lines F parse_f64 as_u64 as_i64 ls s)
  unfolding read_lines
  read_lines-IsInStep [] s h k p = p
  read_lines-IsInStep (l ∷ ls) s (h, hs) (k, ks) p =
      read_lines-IsInStep ls (read_line F parse_f64 as_u64 as_i64 l s) hs ks
        (read_line-IsInStep l s h k p)

  -- Where every sample of the request counter has a status and a method, the counts by status and
  -- the counts by method both add up to the total of the requests, as 64-bit numbers.
  pub read_metrics-totals :
      (text : Text)
      → All (IsLabelled (codes "status")) (lines text)
      → All (IsLabelled (codes "method")) (lines text)
      → (total (read_metrics F parse_f64 as_u64 as_i64 text).by_status % u64_mod
          ≡ (read_metrics F parse_f64 as_u64 as_i64 text).requests_total)
        × (total (read_metrics F parse_f64 as_u64 as_i64 text).by_method % u64_mod
            ≡ (read_metrics F parse_f64 as_u64 as_i64 text).requests_total)
  unfolding read_metrics
  read_metrics-totals text h k = read_lines-IsInStep (lines text) no_stats h k (refl, refl)
