-- ===== src/Compliance/Markets.antt =====
-- The markets of a company: src/utils/companyMarkets.js and src/constants/targetMarkets.js. The
-- codes stand for their trimmed upper-case forms, with the empty text where there is none.
use be_weavecarbon.Common.{String, Bool, List, [], ◌∷◌, str_eq, if◌then◌else◌, any, select_where}

abbrev pub supported_target_markets : List String
supported_target_markets =
    "VN" ∷ "EU" ∷ "US" ∷ "JP" ∷ "KR" ∷ "AU" ∷ "ASEAN" ∷ "TH" ∷ "SG" ∷ "MY" ∷ "ID" ∷ "PH" ∷ "CA"
    ∷ "UK" ∷ "CN" ∷ "IN" ∷ []

abbrev pub is_supported : String → Bool
is_supported code = any (str_eq code) supported_target_markets

-- `[...new Set(texts)]`: the first of each text, in order.
abbrev pub distinct_from : List String → List String → List String
distinct_from seen [] = []
distinct_from seen (x ∷ texts) =
    let again = distinct_from seen texts in
    let added = x ∷ distinct_from (x ∷ seen) texts in if any (str_eq x) seen then again else added

abbrev pub distinct : List String → List String
distinct texts = distinct_from [] texts

unfoldable pub normalize_target_markets : List String → List String
normalize_target_markets codes = distinct (select_where is_supported codes)

abbrev pub first_or_default : List String → String
first_or_default [] = "VN"
first_or_default (code ∷ codes) = code

unfoldable pub normalize_domestic_market : String → List String → String
normalize_domestic_market domestic_market fallback_target_markets =
    if is_supported domestic_market
    then domestic_market
    else first_or_default (normalize_target_markets fallback_target_markets)

-- The markets of `normalizeCompanyMarkets`: the domestic one and the targets.
unfoldable pub normalize_company_markets : String → String → List String → String × List String
normalize_company_markets current_plan domestic_market target_markets = (
  normalize_domestic_market domestic_market (normalize_target_markets target_markets),
  if str_eq current_plan "trial" then [] else normalize_target_markets target_markets,
)
