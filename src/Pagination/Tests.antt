-- ===== src/Pagination/Tests.antt =====
-- Some requests of internal/pkg/pagination/pagination.go.
use danshi_backend.Base.{pos, negsuc, ok, err, ℕ, refl, ◌≤◌, ◌+◌, arith, ◌<◌, ◌≡◌, ◌-◌, ◌*◌, ◌↔◌}
use danshi_backend.Pagination.Pages.{parse-bounds, parse-offset, total_pages_iff}
use danshi_backend.Pagination.Params.{
  Params, int_limit, digits, atoi, parse_one, max_limit, parse, offset, total_pages, invalid_format,
  out_of_range,
}

abbrev second_page : Params
second_page = record { page = 2; limit = 50 }

parse_runs : parse "2" "50" ≡ ok second_page
unfolding parse parse_one atoi digits
parse_runs = refl

parse-defaults : parse "" "" ≡ ok (record { page = 1; limit = 20 })
unfolding parse parse_one atoi digits
parse-defaults = refl

-- A limit that is too large is refused, and so is one that is no number.
parse-refusals : (parse "1" "101" ≡ err out_of_range) × (parse "1" "1e2" ≡ err invalid_format)
unfolding parse parse_one atoi digits
parse-refusals = (refl, refl)

-- A page number at the end of the range overflows.
offset-overflow : offset (record { page = 9223372036854775807; limit = 100 }) ≡ negsuc 199
offset-overflow = refl

parse-bounds_example : (1 ≤ 2) × (2 < int_limit) × (1 ≤ 50) × (50 ≤ max_limit)
parse-bounds_example = parse-bounds "2" "50" second_page parse_runs

-- `page=0`, as the code computes it (no request gets there).
offset-zero : offset (record { page = 0; limit = 20 }) ≡ negsuc 19
offset-zero = refl

parse-offset_example :
    (offset (record second_page { page = 1 }) ≡ pos 0)
    × (n : ℕ) × (offset second_page ≡ pos n)
    × (offset (record second_page { page = 3 }) ≡ pos (n + 50))
parse-offset_example = parse-offset "2" "50" second_page parse_runs (ground arith)

total_pages_iff_example : (2 ≤ total_pages second_page 51) ↔ ((2 - 1) * 50 < 51)
total_pages_iff_example = total_pages_iff second_page 51 (omega arith) (omega arith)
