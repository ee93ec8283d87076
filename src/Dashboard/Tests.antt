-- ===== src/Dashboard/Tests.antt =====
-- Samples of the dashboard: requests with and without the token, a text with two counters, and a
-- text with a quote in it.
use oxi_gate.Base.{
  ℕ, ◌≡◌, ◌≢◌, refl, subst, ◌⊎◌, Text, codes, str_eq, rsplit_once, lines, ◌%◌, Option, none, some,
  [], ◌∷◌, ◌++◌, All, if◌then◌else◌, arith,
}
use oxi_gate.Dashboard.{Request, Pages, serve_admin}
use oxi_gate.Dashboard.Access.{HasBearer, HasParameter, serve_admin-HasToken}
use oxi_gate.Dashboard.Json.{json_str}
use oxi_gate.Dashboard.Stats.{pos, label, read_metrics, u64_mod}
use oxi_gate.Dashboard.Strings.{read_string, read_string-json_str}
use oxi_gate.Dashboard.Totals.{IsLabelled, total, read_metrics-totals}
use oxi_gate.Samples.{field_list, whole}

abbrev pages : Pages field_list
pages = record {
  admin_token = some (codes "secret");
  dashboard_html = codes "<html>";
  stats = codes "{}";
  metrics = codes "# HELP";
}

abbrev asked : Request field_list
asked = record { path = codes "/metrics"; query = some (codes "a=1&token=secret"); headers = [] }

abbrev accept_key : Text → Text
accept_key key = key

metrics_shown : (serve_admin field_list accept_key pages asked).status ≡ 200
unfolding serve_admin
metrics_shown = refl

metrics_hidden :
    (serve_admin field_list accept_key pages (record asked { query = none })).status ≡ 401
unfolding serve_admin
metrics_hidden = refl

serve_admin-HasToken_example :
    (((serve_admin field_list accept_key pages asked).status ≡ 401)
      × (¬ HasBearer field_list (codes "secret") asked))
    ⊎ (((serve_admin field_list accept_key pages asked).status ≢ 401)
        × (HasBearer field_list (codes "secret") asked
            ⊎ HasParameter field_list (codes "secret") asked))
serve_admin-HasToken_example =
    serve_admin-HasToken field_list accept_key pages asked (codes "secret") refl (ground arith)
      (ground arith)

read_string-json_str_example :
    read_string (json_str (codes "say \"hi\\") ++ codes ",1]")
    ≡ some (codes "say \"hi\\", codes ",1]")
read_string-json_str_example =
    read_string-json_str (codes "say \"hi\\") (codes ",1]") (ground arith)

abbrev first_labels : Text
first_labels = codes "oxigate_requests_total{method=\"GET\",status=\"200\",upstream=\"a\"}"

abbrev second_labels : Text
second_labels = codes "oxigate_requests_total{method=\"PUT\",status=\"502\",upstream=\"b\"}"

abbrev two_counters : Text
two_counters = first_labels ++ (codes " 7" ++ (10 ∷ (second_labels ++ codes " 2")))

abbrev known_numbers : Text → Option ℕ
known_numbers s =
    if str_eq s (codes "7") then some 7 else if str_eq s (codes "2") then some 2 else none

both_counted :
    (read_metrics whole known_numbers (λ n. n) pos two_counters).by_status
    ≡ (codes "200", 7) ∷ (codes "502", 2) ∷ []
unfolding read_metrics
both_counted = refl

read-IsLabelled :
    (key line name_labels value : Text)
    → rsplit_once line b' ' ≡ some (name_labels, value)
    → label name_labels key ≢ none
    → IsLabelled key line
read-IsLabelled key line name_labels value e h nl v f counts =
    subst (λ t. label t key ≢ none) (ground arith) h

both-IsLabelled :
    (key : Text)
    → label first_labels key ≢ none
    → label second_labels key ≢ none
    → All (IsLabelled key) (lines two_counters)
unfolding lines rsplit_once
both-IsLabelled key h k = (
  read-IsLabelled key (first_labels ++ codes " 7") first_labels (codes "7") refl h,
  (read-IsLabelled key (second_labels ++ codes " 2") second_labels (codes "2") refl k, tt),
)

both_statuses : All (IsLabelled (codes "status")) (lines two_counters)
unfolding label
both_statuses = both-IsLabelled (codes "status") (ground arith) (ground arith)

both_methods : All (IsLabelled (codes "method")) (lines two_counters)
unfolding label
both_methods = both-IsLabelled (codes "method") (ground arith) (ground arith)

read_metrics-totals_example :
    (total (read_metrics whole known_numbers (λ n. n) pos two_counters).by_status % u64_mod
      ≡ (read_metrics whole known_numbers (λ n. n) pos two_counters).requests_total)
    × (total (read_metrics whole known_numbers (λ n. n) pos two_counters).by_method % u64_mod
        ≡ (read_metrics whole known_numbers (λ n. n) pos two_counters).requests_total)
read_metrics-totals_example =
    read_metrics-totals whole known_numbers (λ n. n) pos two_counters both_statuses both_methods
