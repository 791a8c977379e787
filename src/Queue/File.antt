-- ===== src/Queue/File.antt =====
-- The JSON Lines file of a queue: metadata, lines, encode and read.
use parrot_coder.Queue.Names.{file_name}
use parrot_coder.Base.{
  ℕ, ◌+◌, ◌*◌, ◌^◌, Bool, true, false, List, [], ◌∷◌, map, Text, ltb, if◌then◌else◌,
}

pub record Metadata : Type 0 where
  pub name : Text
  pub description : Text
  pub monitored : Bool
  pub delivery_id : Text

-- A line by what decodeLine makes of it: metadata, an item, or neither. The JSON itself is not modelled; texts
-- are valid UTF-8, which encoding/json keeps as they are.
pub data Line : Type 0 where
  meta_line : Metadata → Line
  item_line : Text → Line
  other_line : Line

-- `ended` says whether the last line ends in a newline.
pub record File : Type 0 where
  pub bytes : ℕ
  pub lines : List Line
  pub ended : Bool

-- `path` is relative to the store's directory.
pub record Info : Type 0 where
  pub path : Text
  pub name : Text
  pub description : Text
  pub size : ℕ
  pub monitored : Bool

abbrev pub info : Text → Metadata → ℕ → Info
info name meta size = record {
  path = file_name name;
  name = meta.name;
  description = meta.description;
  size = size;
  monitored = meta.monitored;
}

-- `empty` carries the Info that Take returns beside ErrEmpty.
pub data Error : Type 0 where
  not_found already_exists invalid_name invalid_direction invalid_count : Error
  empty : Info → Error
  lock_timeout cancelled lock_failed open_failed too_large read_metadata decode_metadata : Error
  decode_item name_mismatch persist create_failed list_failed malformed_file no_id callback : Error

pub data Result {ℓ} (A : Type ℓ) : Type ℓ where
  ok : A → Result A
  err : Error → Result A

infixl 5 ◌>>=◌
abbrev pub ◌>>=◌ {ℓ κ} : {A : Type ℓ} {B : Type κ} → Result A → (A → Result B) → Result B
ok a >>= f = f a
err e >>= f = err e

-- atomicfile.MaxBytes
abbrev pub max_bytes : ℕ
max_bytes = 16 * 2 ^ 20

-- The loop of `read` over the lines behind the metadata.
unfoldable pub decode_items : List Line → Result (List Text)
decode_items [] = ok []
decode_items (item_line item ∷ lines) = do items ← decode_items lines; ok (item ∷ items)
decode_items (meta_line m ∷ lines) = err decode_item
decode_items (other_line ∷ lines) = err decode_item

-- The first line must end in a newline, which the file's last line may lack.
unfoldable pub decode_lines : Bool → List Line → Result (Metadata × List Text)
unfolding decode_items
decode_lines ended [] = err read_metadata
decode_lines false (first ∷ []) = err read_metadata
decode_lines true (meta_line meta ∷ []) = ok (meta, [])
decode_lines ended (meta_line meta ∷ lines) = do items ← decode_items lines; ok (meta, items)
decode_lines ended (first ∷ lines) = err decode_metadata

unfoldable pub decode : File → Result (Metadata × List Text)
unfolding decode_lines
decode f = if ltb max_bytes f.bytes then err too_large else decode_lines f.ended f.lines

-- `width` counts the bytes of a line as encoding/json writes it, the newline included.
module _ (width : Line → ℕ) where
  abbrev pub total : List Line → ℕ
  total [] = 0
  total (line ∷ lines) = width line + total lines

  unfoldable pub encode : Metadata → List Text → File
  encode meta items =
      let lines = meta_line meta ∷ map item_line items in
      record { bytes = total lines; lines = lines; ended = true }
