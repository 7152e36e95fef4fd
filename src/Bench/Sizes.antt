-- ===== src/Bench/Sizes.antt =====
-- `parseSizes`. `number` is what strconv.Atoi gives for a part without the white space around it.
use mac_homa.Common.{
  ℕ, ◌==◌, ltb, Bool, true, false, ◌||◌, if◌then◌else◌, List, [], ◌∷◌, ◌++◌, Option, none, some,
  length,
}
use mac_homa.Endpoint.{max_message_size}
use mac_homa.Endpoint.Defaults.{ℤ, pos, negsuc}

-- strings.Split(s, ","), with the part that has begun.
unfoldable pub split : List ℕ → List ℕ → List (List ℕ)
split part [] = part ∷ []
split part (c ∷ s) = elim (c == 44) [
  | true ↦ part ∷ split [] s
  | false ↦ split (part ++ (c ∷ [])) s
]

unfoldable pub is_seen : ℕ → List ℕ → Bool
is_seen n [] = false
is_seen n (x ∷ seen) = x == n || is_seen n seen

-- The size that is added, if it is in range and new.
unfoldable pub accept_size : Option ℤ → List ℕ → Option ℕ
accept_size none seen = none
accept_size (some (negsuc n)) seen = none
accept_size (some (pos n)) seen =
    if ltb n 1 || ltb max_message_size n || is_seen n seen then none else some n

-- The loop over the parts; the keys of the map `seen` are the sizes in the result.
unfoldable pub size_loop : (List ℕ → Option ℤ) → List (List ℕ) → List ℕ → Option (List ℕ)
size_loop number [] result = some result
size_loop number (part ∷ parts) result = elim (accept_size (number part) result) [
  | none ↦ none
  | some n ↦ size_loop number parts (result ++ (n ∷ []))
]

unfoldable pub parse_sizes : (List ℕ → Option ℤ) → List ℕ → Option (List ℕ)
parse_sizes number s =
    let parts = split [] s in
    let result = size_loop number parts [] in if ltb 32 (length parts) then none else result
