-- ===== src/Protocol/Host.antt =====
-- What the JavaScript runtime knows of Unicode, and what the program asks of it. The tables are
-- a parameter of the model; `ascii` is a host for plain ASCII texts, on which tests run.
use gib_sync.Prelude.{ℕ, ◌+◌, ◌&&◌, Bool, map, leb, if◌then◌else◌}
use gib_sync.Prelude.Text.{Text, text_leb}

pub record Host : Type 0 where
  -- `s.toLowerCase()`
  pub lower : Text → Text
  -- `s.normalize("NFC")`
  pub compose : Text → Text
  -- `a.localeCompare(b) <= 0`
  pub collate : Text → Text → Bool

-- `path.normalize("NFC").toLowerCase()`
abbrev pub portable : Host → Text → Text
portable H path = H.lower (H.compose path)

abbrev lower_unit : ℕ → ℕ
lower_unit c = if leb b'A' c && leb c b'Z' then c + 32 else c

abbrev pub ascii : Host
ascii = record { lower = map lower_unit; compose = λ s. s; collate = text_leb }
