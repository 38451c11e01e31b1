-- ===== src/Extract/Patterns/Frames.antt =====
-- The patterns of backend/engine/extract/framing.py.
use sih.Prelude.{ℕ, Bool, ◌||◌, leb, ◌&&◌, ◌==◌}
use sih.Prelude.Text.{codes}
use sih.Prelude.Bytes.{is_space}
use sih.Prelude.Regex.{
  Regex, one, star, open_group, close_group, ◌⨾◌, plus, times, up_to, is_digit, is_base64, one_of,
}
use sih.Extract.Patterns.{ascii_spaces, text}

abbrev line_break : ℕ → Bool
line_break = one_of (codes "\r\n")

abbrev pem_line : Regex
pem_line =
    text (codes "-----")
    ⨾ plus (one (λ c. leb b'A' c && leb c b'Z' || is_digit c || one_of (codes " _-") c))
    ⨾ text (codes "-----")

-- `_STRUCTURAL_PEM_RE`
unfoldable pub structural_pem : Regex
structural_pem =
    let payload = one (λ c. is_base64 c || c == b'=' || is_space c) in
    pem_line
    ⨾ ascii_spaces
    ⨾ plus (one line_break)
    ⨾ open_group
    ⨾ times 40 payload
    ⨾ star payload
    ⨾ close_group
    ⨾ plus (one line_break)
    ⨾ pem_line

abbrev base64_line : Regex
base64_line = times 64 (one is_base64) ⨾ plus (one line_break)

-- `_STRUCTURAL_BASE64_BLOCK_RE`
unfoldable pub structural_base64 : Regex
structural_base64 =
    times 2 base64_line
    ⨾ star base64_line
    ⨾ times 4 (one is_base64)
    ⨾ up_to 60 (one is_base64)
    ⨾ up_to 2 (text (codes "="))
