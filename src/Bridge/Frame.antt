-- ===== src/Bridge/Frame.antt =====
-- `_decode_program_frame` of src/dcc_mcp_obs/bridge.py: a PNG image, its chunks walked and checked.
-- Bytes are numbers; `base64.b64decode` and `binascii.crc32` are the library's.
use dcc_mcp_obs.Base.{
  ℕ, zero, suc, ◌+◌, ◌-◌, ◌*◌, Bool, true, false, not, ◌&&◌, ◌||◌, List, [], ◌∷◌, ◌++◌, none, some,
  length, take, drop, between, leb, ltb, nat_eq, if◌then◌else◌,
}
use dcc_mcp_obs.Value.{Value, str, Fields}
use dcc_mcp_obs.Value.Dict.{get}
use dcc_mcp_obs.Value.Text.{strip_prefix}
use dcc_mcp_obs.Value.Check.{equals_text}
use dcc_mcp_obs.Result.{bridge_error, Result, ok, err, ◌>>=◌, ◌>>◌}
use dcc_mcp_obs.Bridge.Host.{Library}
use dcc_mcp_obs.Bridge.Validate.Items.{check, exactly, name}

abbrev pub program_frame_width : ℕ
program_frame_width = 320

abbrev pub program_frame_height : ℕ
program_frame_height = 180

abbrev pub max_program_frame_bytes : ℕ
max_program_frame_bytes = 400_000

abbrev pub png_signature : List ℕ
png_signature = 137 ∷ 80 ∷ 78 ∷ 71 ∷ 13 ∷ 10 ∷ 26 ∷ 10 ∷ []

abbrev pub ihdr : List ℕ
ihdr = 73 ∷ 72 ∷ 68 ∷ 82 ∷ []

abbrev pub idat : List ℕ
idat = 73 ∷ 68 ∷ 65 ∷ 84 ∷ []

abbrev pub iend : List ℕ
iend = 73 ∷ 69 ∷ 78 ∷ 68 ∷ []

unfoldable pub same_bytes : List ℕ → List ℕ → Bool
same_bytes [] [] = true
same_bytes (a ∷ as') (b ∷ bs) = nat_eq a b && same_bytes as' bs
same_bytes _ _ = false

-- image.startswith(prefix)
unfoldable pub starts : List ℕ → List ℕ → Bool
unfolding same_bytes
starts prefix image = same_bytes (take (length prefix) image) prefix

-- image[from : from + size]
unfoldable pub slice : ℕ → ℕ → List ℕ → List ℕ
slice from size image = take size (drop from image)

-- int.from_bytes(bs, "big")
unfoldable pub big_endian : ℕ → List ℕ → ℕ
big_endian acc [] = acc
big_endian acc (b ∷ bs) = big_endian (acc * 256 + b) bs

pub record Walk : Type 0 where
  pub offset : ℕ
  pub first : Bool
  pub saw_idat : Bool
  pub saw_iend : Bool

abbrev pub start_walk : Walk
start_walk = record { offset = 8; first = true; saw_idat = false; saw_iend = false }

module _ (lib : Library) (image : List ℕ) where
  -- One round of the loop, after its test of the count: the chunk at the offset.
  unfoldable pub read_chunk : Walk → Result Walk
  unfolding check same_bytes slice big_endian
  read_chunk w = do
    check (leb (w.offset + 12) (length image))
    let chunk_length = big_endian 0 (slice w.offset 4 image)
    let chunk_type = slice (w.offset + 4) 4 image
    let chunk_end = w.offset + 12 + chunk_length
    check (leb chunk_end (length image))
    let chunk_payload = slice (w.offset + 8) chunk_length image
    let expected_crc = big_endian 0 (slice (w.offset + 8 + chunk_length) 4 image)
    check (nat_eq (lib.crc32 (chunk_type ++ chunk_payload)) expected_crc)
    check (not w.first || (same_bytes chunk_type ihdr && nat_eq chunk_length 13))
    check (
        not (same_bytes chunk_type iend)
        || (nat_eq chunk_length 0 && nat_eq chunk_end (length image)))
    ok (record {
      offset = chunk_end;
      first = false;
      saw_idat = w.saw_idat || same_bytes chunk_type idat;
      saw_iend = w.saw_iend || same_bytes chunk_type iend;
    })

  -- `while offset < len(image)`; the budget is 128 - chunk_count, so that the round in which the
  -- budget is 0 is the one with `chunk_count > 128`.
  unfoldable pub walk_chunks : ℕ → Walk → Result Walk
  unfolding read_chunk check
  walk_chunks zero w =
      if ltb w.offset (length image) then err (bridge_error "OBS_RESPONSE_INVALID") else ok w
  walk_chunks (suc budget) w =
      let more = (do next ← read_chunk w; walk_chunks budget next) in
      if ltb w.offset (length image) then more else ok w

  unfoldable pub check_image : Result (List ℕ)
  unfolding walk_chunks check slice starts big_endian same_bytes
  check_image = do
    check (between 33 max_program_frame_bytes (length image))
    check (starts png_signature image)
    check (same_bytes (slice 12 4 image) ihdr)
    check (nat_eq (big_endian 0 (slice 16 4 image)) program_frame_width)
    check (nat_eq (big_endian 0 (slice 20 4 image)) program_frame_height)
    check (same_bytes (slice (length image - 8) 4 image) iend)
    w ← walk_chunks 128 start_walk
    check (w.saw_idat && w.saw_iend)
    ok image

-- image_data.startswith(_PNG_DATA_URL_PREFIX), and the rest decoded
unfoldable pub image_bytes : Library → Value → Result (List ℕ)
unfolding strip_prefix
image_bytes lib (str image_data) = elim (strip_prefix "data:image/png;base64," image_data) [
  | none ↦ err (bridge_error "OBS_RESPONSE_INVALID")
  | some encoded ↦ elim (lib.b64decode encoded) [
    | none ↦ err (bridge_error "OBS_RESPONSE_INVALID")
    | some image ↦ ok image
  ]
]
image_bytes lib _ = err (bridge_error "OBS_RESPONSE_INVALID")

unfoldable pub decode_program_frame : Library → Fields → Result (List ℕ)
unfolding check exactly name equals_text image_bytes check_image
decode_program_frame lib response = do
  check (exactly ("sourceName" ∷ "imageFormat" ∷ "imageData" ∷ []) response)
  check (name (get "sourceName" response))
  check (equals_text "png" (get "imageFormat" response))
  image ← image_bytes lib (get "imageData" response)
  check_image lib image
