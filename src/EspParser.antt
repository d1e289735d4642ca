-- ===== src/EspParser.antt =====
-- helpers/esp_parser.c: the companion's wire protocol, one line at a time.
pub mod Fields
pub mod Message
pub mod Detection
pub mod Advert
pub mod Line
pub mod Lossless
pub mod Trust
pub mod Dispatch
pub mod Payload
