-- ===== src/EspLink.antt =====
-- helpers/esp_link.c: the bytes of the UART, made into lines. An interrupt puts bytes into a buffer,
-- and a worker takes them out.
pub mod Segments
pub mod Refine
use flip_de_flock.Common.{
  Bool, Option, [], false, if◌then◌else◌, length, ltb, none, not, some, true, ℕ, ◌%◌, ◌++◌, ◌+◌,
  ◌-◌, ◌==◌, ◌^◌, ◌||◌, ◌∷◌,
}
use flip_de_flock.Common.Bytes.{Bytes, is_empty}

abbrev pub esp_rx_buf : ℕ
esp_rx_buf = 512

abbrev pub esp_line_max : ℕ
esp_line_max = 384

-- `line_len` is the length of `line`.
pub record EspLink : Type 0 where
  pub line : Bytes
  pub skip_line : Bool
  pub lines : ℕ
  pub dropped : ℕ
  pub rx_dropped : ℕ
  pub line_rx_dropped : ℕ

abbrev pub is_line_end : ℕ → Bool
is_line_end c = c == b'\n' || c == b'\r'

-- A line boundary: the line that is handed to the parser, if there is one.
unfoldable pub finish_line : EspLink → EspLink × Option Bytes
finish_line esp =
    if esp.skip_line
    then (record esp { skip_line = false; line = [] }, none)
    else if not (esp.rx_dropped == esp.line_rx_dropped)
    then (record esp { line = []; dropped = (esp.dropped + 1) % 2 ^ 32 }, none)
    else if is_empty esp.line
    then (esp, none)
    else (record esp { lines = (esp.lines + 1) % 2 ^ 32; line = [] }, some esp.line)

-- The watermark of lost bytes is set again at each boundary.
abbrev pub resync : EspLink × Option Bytes → EspLink × Option Bytes
resync (esp, o) = (record esp { line_rx_dropped = esp.rx_dropped }, o)

-- The body of the worker's loop, for a byte from the buffer.
unfoldable pub worker_byte : ℕ → EspLink → EspLink × Option Bytes
unfolding finish_line
worker_byte c esp =
    if is_line_end c
    then resync (finish_line esp)
    else if esp.skip_line
    then (esp, none)
    else if ltb (length esp.line) (esp_line_max - 1)
    then (record esp { line = esp.line ++ c ∷ [] }, none)
    else (record esp { skip_line = true; line = []; dropped = (esp.dropped + 1) % 2 ^ 32 }, none)

-- A byte that the interrupt could not hand over.
unfoldable pub lose_byte : EspLink → EspLink
lose_byte esp = record esp { rx_dropped = (esp.rx_dropped + 1) % 2 ^ 32 }

-- The buffer in between.
pub record RxPath : Type 0 where
  pub buffer : Bytes
  pub link : EspLink

unfoldable pub esp_rx_isr : ℕ → RxPath → RxPath
unfolding lose_byte
esp_rx_isr c p =
    if ltb (length p.buffer) esp_rx_buf
    then record p { buffer = p.buffer ++ c ∷ [] }
    else record p { link = lose_byte p.link }

abbrev pub took : Bytes → EspLink × Option Bytes → RxPath × Option Bytes
took rest (esp, o) = (record { buffer = rest; link = esp }, o)

abbrev pub take_byte : Bytes → EspLink → RxPath × Option Bytes
take_byte [] esp = (record { buffer = []; link = esp }, none)
take_byte (c ∷ rest) esp = took rest (worker_byte c esp)

unfoldable pub worker_step : RxPath → RxPath × Option Bytes
worker_step p = take_byte p.buffer p.link
