-- ===== src/Dashboard/Stats.antt =====
-- `stats_json` of src/dashboard.rs: the numbers that it reads from the text of the metrics, and the
-- document that it writes. A hash map is an association list, and its order here is one of those
-- that it may have. The `u64` sums wrap. Reading an `f64` and the casts of it are parameters, and so
-- is printing a number.
use oxi_gate.Base.{
  ℕ, suc, ◌+◌, ◌%◌, ◌^◌, Text, codes, str_eq, starts_with, find_str, split_once, rsplit_once, lines,
  update, text_Eq, Bool, true, false, ◌||◌, if◌then◌else◌, is_empty, Option, none, some, List, [],
  ◌∷◌, ◌++◌,
}
use oxi_gate.Dashboard.Json.{json_str, separated, map_to_json_obj}
use oxi_gate.Machine.{Float}

abbrev pub u64_mod : ℕ
u64_mod = 2 ^ 64

-- An `i64`.
pub data ℤ : Type 0 where
  pos : ℕ → ℤ
  negsuc : ℕ → ℤ

abbrev before_quote : Option Text → Option Text
before_quote none = none
before_quote (some rest) = elim (split_once rest b'"') [ some (a, b) ↦ some a | none ↦ none ]

-- The value of the first label that `key="` stands before.
unfoldable pub label : Text → Text → Option Text
unfolding find_str split_once
label name_labels key = before_quote (find_str name_labels (key ++ codes "=\""))

pub record UpstreamSnap : Type 0 where
  pub healthy : Bool
  pub connections : ℤ
  pub requests : ℕ

abbrev pub default_snap : UpstreamSnap
default_snap = record { healthy = false; connections = pos 0; requests = 0 }

pub record Stats : Type 0 where
  pub requests_total : ℕ
  pub retries : ℕ
  pub active : ℤ
  pub by_status : List (Text × ℕ)
  pub by_method : List (Text × ℕ)
  pub upstreams : List (Text × UpstreamSnap)

abbrev pub no_stats : Stats
no_stats = record {
  requests_total = 0;
  retries = 0;
  active = pos 0;
  by_status = [];
  by_method = [];
  upstreams = [];
}

-- `*m.entry(key).or_insert(0) += v`, for a label that is there.
unfoldable pub add_to : Option Text → ℕ → List (Text × ℕ) → List (Text × ℕ)
unfolding update
add_to none v m = m
add_to (some k) v m = update k 0 (λ n. (n + v) % u64_mod) m

unfoldable pub snap :
    Option Text
    → (UpstreamSnap → UpstreamSnap)
    → List (Text × UpstreamSnap)
    → List (Text × UpstreamSnap)
unfolding update
snap none f m = m
snap (some k) f m = update k default_snap f m

unfoldable pub add_requests :
    Option Text → ℕ → List (Text × UpstreamSnap) → List (Text × UpstreamSnap)
unfolding snap str_eq
add_requests none v m = m
add_requests (some up) v m =
    if str_eq up (codes "none")
    then m
    else snap (some up) (λ s. record s { requests = (s.requests + v) % u64_mod }) m

module _ (F : Float) (parse_f64 : Text → Option F.F64) (as_u64 : F.F64 → ℕ)
    (as_i64 : F.F64 → ℤ) where
  abbrev value_or_zero : Option F.F64 → F.F64
  value_or_zero none = F.zero_f
  value_or_zero (some v) = v

  unfoldable pub count_requests : Text → ℕ → Stats → Stats
  unfolding add_to add_requests label
  count_requests name_labels v s = record s {
    requests_total = (s.requests_total + v) % u64_mod;
    by_status = add_to (label name_labels (codes "status")) v s.by_status;
    by_method = add_to (label name_labels (codes "method")) v s.by_method;
    upstreams = add_requests (label name_labels (codes "upstream")) v s.upstreams;
  }

  unfoldable pub read_sample : Text → F.F64 → Stats → Stats
  unfolding count_requests snap label starts_with str_eq
  read_sample name_labels v s =
      if starts_with name_labels (codes "oxigate_requests_total{")
      then count_requests name_labels (as_u64 v) s
      else if starts_with name_labels (codes "oxigate_upstream_health{")
      then record s {
        upstreams =
            snap (label name_labels (codes "upstream")) (λ u. record u { healthy = F.le F.one_f v })
              s.upstreams;
      }
      else if starts_with name_labels (codes "oxigate_upstream_connections{")
      then record s {
        upstreams =
            snap (label name_labels (codes "upstream")) (λ u. record u { connections = as_i64 v })
              s.upstreams;
      }
      else if str_eq name_labels (codes "oxigate_active_connections")
      then record s { active = as_i64 v }
      else if str_eq name_labels (codes "oxigate_retries_total")
      then record s { retries = as_u64 v }
      else s

  unfoldable pub read_line : Text → Stats → Stats
  unfolding read_sample rsplit_once starts_with
  read_line line s =
      if starts_with line (codes "#") || is_empty line then s else elim (rsplit_once line b' ') [
        | none ↦ s
        | some (name_labels, value) ↦ read_sample name_labels (value_or_zero (parse_f64 value)) s
      ]

  unfoldable pub read_lines : List Text → Stats → Stats
  unfolding read_line
  read_lines [] s = s
  read_lines (line ∷ rest) s = read_lines rest (read_line line s)

  unfoldable pub read_metrics : Text → Stats
  unfolding read_lines lines
  read_metrics text = read_lines (lines text) no_stats

  module _ (decimal : ℕ → Text) where
    abbrev integer : ℤ → Text
    integer (pos n) = decimal n
    integer (negsuc n) = b'-' ∷ decimal (suc n)

    abbrev boolean : Bool → Text
    boolean true = codes "true"
    boolean false = codes "false"

    unfoldable pub upstream_json : Text × UpstreamSnap → Text
    unfolding json_str
    upstream_json (addr, s) =
        codes "{\"address\":"
        ++ (json_str addr
            ++ (codes ",\"healthy\":"
                ++ (boolean s.healthy
                    ++ (codes ",\"connections\":"
                        ++ (integer s.connections
                            ++ (codes ",\"requests\":" ++ (decimal s.requests ++ codes "}")))))))

    unfoldable pub upstreams_json : List (Text × UpstreamSnap) → List Text
    unfolding upstream_json
    upstreams_json [] = []
    upstreams_json (u ∷ us) = upstream_json u ∷ upstreams_json us

    -- The limiter's two counters, or 0 without a limiter, and the time since the start in seconds.
    unfoldable pub stats_json : Text → ℕ → ℕ → ℕ → Text → Text
    unfolding read_metrics upstreams_json map_to_json_obj separated json_str
    stats_json version uptime allows rejects text =
        let s = read_metrics text in
        codes "{\"version\":"
        ++ (json_str version
            ++ (codes ",\"uptime_secs\":"
                ++ (decimal uptime
                    ++ (codes ",\"requests_total\":"
                        ++ (decimal s.requests_total
                            ++ (codes ",\"active_connections\":"
                                ++ (integer s.active
                                    ++ (codes ",\"retries_total\":"
                                        ++ (decimal s.retries
                                            ++ (codes ",\"rate_limit_allows\":"
                                                ++ (decimal allows
                                                    ++ (codes ",\"rate_limit_rejects\":"
                                                        ++ (decimal rejects
                                                            ++ (codes ",\"by_status\":"
                                                            ++ (map_to_json_obj decimal s.by_status
                                                            ++ (codes ",\"by_method\":"
                                                            ++ (map_to_json_obj decimal s.by_method
                                                            ++ (codes ",\"upstreams\":["
                                                            ++ (separated
                                                            (upstreams_json s.upstreams)
                                                            ++ codes "]}")))))))))))))))))))
