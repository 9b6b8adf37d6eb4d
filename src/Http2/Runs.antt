-- ===== src/Http2/Runs.antt =====
-- A body in two chunks.
use proxypen.Base.{
  ℕ, ◌+◌, ◌%◌, ◌^◌, ◌≡◌, refl, List, [], ◌∷◌, map, concat, length, codes, ok, arith,
}
use proxypen.Http2.{read_body}
use proxypen.Http2.Timed.{read_body-concat}

abbrev chunks : List (List ℕ)
chunks = codes "abc" ∷ codes "de" ∷ []

read_body-concat_example :
    read_body (λ n. ok tt) (map ok chunks) 0 ≡ ok ((0 + length (concat chunks)) % 2 ^ 64)
read_body-concat_example = read_body-concat (λ n. ok tt) chunks 0 (refl, (refl, tt)) (omega arith)
