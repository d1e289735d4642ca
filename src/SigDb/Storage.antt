-- ===== src/SigDb/Storage.antt =====
-- The calls of the firmware's storage service that helpers/sig_db.c makes on a path, and what its
-- documentation says of them. Handles are opened and closed within one function, so a call names
-- the path instead; memory for a file's text is taken to be there.
use flip_de_flock.Common.{Bool, Option, [], false, length, none, some, true, ℕ, ◌++◌, ◌≡◌}
use flip_de_flock.Common.Bytes.{Bytes}

pub record Storage : Type 1 where
  pub Card : Type 0
  -- `storage_file_open(…, FSAM_READ, FSOM_OPEN_EXISTING)`
  pub open_read : Card → Bytes → Bool
  pub size : Card → Bytes → ℕ
  -- `storage_file_read` from the start, of at most so many bytes
  pub read : Card → Bytes → ℕ → Bytes
  -- `storage_common_mkdir` of the application's folder
  pub mkdir : Card → Card
  -- `storage_file_open(…, FSAM_WRITE, FSOM_OPEN_APPEND)`
  pub open_append : Card → Bytes → Bool × Card
  -- `storage_file_write`: the number of bytes written
  pub write : Card → Bytes → Bytes → ℕ × Card
  -- `storage_simply_remove`
  pub remove : Card → Bytes → Bool × Card

-- What a file holds when it is opened for appending: a file that is missing is made empty.
abbrev pub text_of : Option Bytes → Bytes
text_of none = []
text_of (some b) = b

-- The files of the card, as the calls show them, while every call succeeds.
pub record IsReliable (S : Storage) (file : S.Card → Bytes → Option Bytes) : Type 0 where
  pub missing : (c : S.Card) (p : Bytes) → file c p ≡ none → S.open_read c p ≡ false
  pub present : (c : S.Card) (p b : Bytes) → file c p ≡ some b → S.open_read c p ≡ true
  pub sized : (c : S.Card) (p b : Bytes) → file c p ≡ some b → S.size c p ≡ length b
  pub reads : (c : S.Card) (p b : Bytes) → file c p ≡ some b → S.read c p (length b) ≡ b
  pub keeps : (c : S.Card) (p : Bytes) → file (S.mkdir c) p ≡ file c p
  pub opens : (c : S.Card) (p : Bytes) → (S.open_append c p).0 ≡ true
  pub made : (c : S.Card) (p : Bytes) → file (S.open_append c p).1 p ≡ some (text_of (file c p))
  pub writes : (c : S.Card) (p t : Bytes) → (S.write c p t).0 ≡ length t
  pub written :
      (c : S.Card) (p b t : Bytes) → file c p ≡ some b → file (S.write c p t).1 p ≡ some (b ++ t)
