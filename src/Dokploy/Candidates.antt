-- ===== src/Dokploy/Candidates.antt =====
-- `walk_dicts` and `collect_candidates` of backend/scripts/dokploy-repair.py.
use clusteration.Base.{
  ℕ, ◌+◌, String, Bool, not, ◌&&◌, ◌||◌, List, [], ◌∷◌, ◌++◌, any, ◌=ₛ◌, ltb, if◌then◌else◌,
}
use clusteration.Base.Text.{lower, strip, contains}
use clusteration.Base.Json.{
  Json, Items, Fields, arr, obj, nil, item, end, field, get, truthy, str_or_empty,
}
use clusteration.Base.Json.Dumps.{dumps}

-- The dicts of a value, each before those that it holds.
unfoldable mutual
  pub walk_dicts : Json → List Fields
  walk_dicts (obj d) = d ∷ walk_fields d
  walk_dicts (arr xs) = walk_items xs
  walk_dicts _ = []

  pub walk_items : Items → List Fields
  walk_items nil = []
  walk_items (item v xs) = walk_dicts v ++ walk_items xs

  pub walk_fields : Fields → List Fields
  walk_fields end = []
  walk_fields (field k v d) = walk_dicts v ++ walk_fields d

-- `as_text`
abbrev as_text : Fields → String
unfolding dumps lower
as_text d = lower (dumps (obj d))

pub record Candidate : Type 0 where
  pub score : ℕ
  pub app_id : String
  pub name : String
  pub app_name : String
  pub matched_domain : Bool
  pub raw : Fields

-- `value or other`
abbrev json_or : Json → Json → Json
unfolding truthy
json_or value other = if truthy value then value else other

abbrev points : Bool → ℕ → ℕ
points b n = if b then n else 0

-- `part and part in text`
abbrev is_part : String → String → Bool
unfolding contains
is_part part text = not (part =ₛ "") && contains text part

-- The candidate of a dict, with whatever score.
unfoldable pub scored : String → String → Fields → Candidate
unfolding json_or as_text is_part get str_or_empty strip lower
scored app_name domain dict =
    let app_name_l = lower app_name in
    let app_id = strip (str_or_empty (json_or (get "applicationId" dict) (get "appId" dict))) in
    let name = strip (str_or_empty (get "name" dict)) in
    let dokploy_app_name = strip (str_or_empty (get "appName" dict)) in
    let blob = as_text dict in
    let matched_domain = is_part (lower domain) blob in
    record {
      score =
          points (not (app_id =ₛ "")) 2
          + points (is_part app_name_l (lower name)) 8
          + points (is_part app_name_l (lower dokploy_app_name)) 8
          + points (is_part app_name_l blob) 4
          + points matched_domain 10;
      app_id = app_id;
      name = name;
      app_name = dokploy_app_name;
      matched_domain = matched_domain;
      raw = dict;
    }

-- `app_id or dokploy_app_name`
abbrev pub key_of : Candidate → String
key_of c = if c.app_id =ₛ "" then c.app_name else c.app_id

abbrev pub is_seen : String → List String → Bool
is_seen key = any (λ k. key =ₛ k)

-- Whether the dict is passed over.
abbrev pub is_passed_over : Candidate → List String → Bool
is_passed_over c seen =
    (c.app_id =ₛ "" && c.app_name =ₛ "") || ltb c.score 6 || is_seen (key_of c) seen

-- The loop over the dicts.
unfoldable pub collect : String → String → List Fields → List String → List Candidate
unfolding scored
collect app_name domain [] seen = []
collect app_name domain (dict ∷ dicts) seen =
    let c = scored app_name domain dict in
    let passed = collect app_name domain dicts seen in
    let taken = collect app_name domain dicts (key_of c ∷ seen) in
    if is_passed_over c seen then passed else c ∷ taken

-- A candidate goes before the first that has a smaller score.
unfoldable pub insert_candidate : Candidate → List Candidate → List Candidate
insert_candidate c [] = c ∷ []
insert_candidate c (d ∷ ds) = if ltb c.score d.score then d ∷ insert_candidate c ds else c ∷ d ∷ ds

-- `sorted(candidates, key=score, reverse=True)`, which is stable
unfoldable pub by_score : List Candidate → List Candidate
unfolding insert_candidate
by_score [] = []
by_score (c ∷ cs) = insert_candidate c (by_score cs)

unfoldable pub collect_candidates : Json → String → String → List Candidate
unfolding walk_dicts collect by_score
collect_candidates projects app_name domain =
    by_score (collect app_name domain (walk_dicts projects) [])
