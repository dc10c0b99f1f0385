-- ===== src/Inspect/Examples.antt =====
-- A small PNG, a small JPEG and a text that is committed, and the theorems at them.
use systeme_local.Prelude.{ℕ, ◌≡◌, refl, true, false, none, some, List, [], ◌∷◌, ◌++◌, arith, ok}
use systeme_local.Attachments.{
  text, reference, agent_generated, CommittedAttachment, AttachmentManifest,
}
use systeme_local.Turns.{CommittedTurn}
use systeme_local.Attachments.Digests.{
  DigestCalls, attachment_metadata_sha256, attachment_manifest_sha256,
}
use systeme_local.Attachments.Valid.{valid_inspection, valid_attachment, valid_manifest}
use systeme_local.Attachments.Valid.Names.{NameCalls, valid_display_name, before_dot, strip_right}
use systeme_local.Inspect.Bytes.{starts_with, ends_with}
use systeme_local.Inspect.Settled.{Settled}
use systeme_local.Inspect.Png.{
  bad_png, png_signature, valid_depth, read_ihdr, chunk_size, after_chunk, read_chunk, read_chunks,
  inspect_png,
}
use systeme_local.Inspect.Png.Total.{inspect_png-Settled}
use systeme_local.Inspect.Png.Dimensions.{IsSize, inspect_png-IsSize}
use systeme_local.Inspect.Jpeg.{
  bad_jpeg, skip_fill, read_marker, read_sof, read_segment, read_part, read_parts, inspect_jpeg,
}
use systeme_local.Inspect.Jpeg.Total.{inspect_jpeg-Settled}
use systeme_local.Inspect.Content.{
  ContentCalls, inspect_text, inspect_content, inspect_attachment_bytes,
}
use systeme_local.Inspect.Commit.{
  CommitRequest, signed_attachment, commit_attachment, verify_attachment_bytes, check_attachment,
  check_attachments, signed_manifest, commit_attachment_manifest, verify_attachment_manifest,
}
use systeme_local.Inspect.Commit.RoundTrip.{
  reinspection, Unchanged, committed_verifies, verified-Unchanged,
}
use systeme_local.Inspect.Commit.Manifest.{committed_manifest_verifies}

abbrev no_crc : List ℕ → ℕ → ℕ
no_crc bytes start = 0

-- eight pixels by four, with the chunks IHDR, IDAT and IEND
abbrev png_file : List ℕ
png_file =
    png_signature
    ++ (0 ∷ 0 ∷ 0 ∷ 13 ∷ 73 ∷ 72 ∷ 68 ∷ 82 ∷ 0 ∷ 0 ∷ 0 ∷ 8 ∷ 0 ∷ 0 ∷ 0 ∷ 4 ∷ 8 ∷ 2 ∷ 0 ∷ 0 ∷ 0 ∷ 0
        ∷ 0 ∷ 0 ∷ 0 ∷ [])
    ++ (0 ∷ 0 ∷ 0 ∷ 1 ∷ 73 ∷ 68 ∷ 65 ∷ 84 ∷ 7 ∷ 0 ∷ 0 ∷ 0 ∷ 0 ∷ [])
    ++ (0 ∷ 0 ∷ 0 ∷ 0 ∷ 73 ∷ 69 ∷ 78 ∷ 68 ∷ 0 ∷ 0 ∷ 0 ∷ 0 ∷ [])

png_inspected : inspect_png no_crc png_file ≡ ok (8, 4)
unfolding inspect_png read_chunks read_chunk chunk_size after_chunk read_ihdr valid_depth
    starts_with
png_inspected = refl

inspect_png-Settled_example : Settled bad_png (inspect_png no_crc png_file)
inspect_png-Settled_example = inspect_png-Settled no_crc png_file

inspect_png-IsSize_example : (starts_with png_file png_signature ≡ true) × IsSize png_file 16 (8, 4)
inspect_png-IsSize_example = inspect_png-IsSize no_crc png_file (8, 4) png_inspected

-- one start of frame, an empty header of the scan, and two bytes of it
abbrev jpeg_file : List ℕ
jpeg_file =
    255 ∷ 216 ∷ 255 ∷ 192 ∷ 0 ∷ 11 ∷ 8 ∷ 0 ∷ 4 ∷ 0 ∷ 8 ∷ 1 ∷ 1 ∷ 17 ∷ 0 ∷ 255 ∷ 218 ∷ 0 ∷ 2 ∷ 5 ∷ 6
    ∷ 255 ∷ 217 ∷ []

jpeg_inspected : inspect_jpeg jpeg_file ≡ ok (8, 4)
unfolding inspect_jpeg read_parts read_part read_segment read_sof read_marker skip_fill starts_with
    ends_with
jpeg_inspected = refl

inspect_jpeg-Settled_example : Settled bad_jpeg (inspect_jpeg jpeg_file)
inspect_jpeg-Settled_example = inspect_jpeg-Settled jpeg_file

abbrev calls : ContentCalls
calls = record {
  crc32 = no_crc;
  sha256 = λ content. "digest";
  pdf_header = λ content. true;
  pdf_eof = λ content. true;
  decode_utf8 = λ content. some content;
  raw_decode = λ keys codes. none;
}

abbrev digests : DigestCalls
digests = record {
  sha256 = λ domain frames. domain;
  isoformat = λ t. "time";
  decimal = λ n. "index";
  stable = λ prefix parts. prefix;
}

abbrev names : NameCalls
names = record {
  nfc = λ s. s;
  characters = λ s. s ∷ [];
  is_control = λ s. false;
  utf8_size = λ s. 5;
  casefold = λ l. "name";
}

abbrev turn : CommittedTurn
turn = record {
  conversation_id = "c";
  turn_id = "t";
  trace_id = "x";
  idempotency_key = "k";
  principal = record { agent_id = "a"; instance_id = "i"; key_id = "key"; verification_id = "v" };
  committed_at = 3;
  content_sha256 = "turn";
  utf8_bytes = 5;
  part_count = 1;
}

abbrev request : CommitRequest
request = record {
  turn = turn;
  attachment_id = "a1";
  ordinal = 0;
  display_name = "notes";
  role = reference;
  source = agent_generated;
  media_type = text;
  content = 104 ∷ 105 ∷ [];
  inspected_at = 4;
  committed_at = 5;
}

abbrev attachment : CommittedAttachment
attachment = record {
  attachment_id = "a1";
  conversation_id = "c";
  turn_id = "t";
  trace_id = "x";
  ordinal = 0;
  display_name = "notes";
  role = reference;
  source = agent_generated;
  inspection = record {
    media_type = text;
    content_sha256 = "digest";
    byte_size = 2;
    image_width = none;
    image_height = none;
    inspected_at = 4;
  };
  committed_at = 5;
  metadata_sha256 = "systeme-local:committed-attachment:v1";
}

attachment_committed : commit_attachment calls digests names request ≡ ok attachment
unfolding commit_attachment inspect_attachment_bytes inspect_content inspect_text signed_attachment
    valid_attachment valid_inspection valid_display_name before_dot strip_right
    attachment_metadata_sha256
attachment_committed = refl

committed_verifies_example :
    verify_attachment_bytes calls digests names attachment (104 ∷ 105 ∷ []) 9
    ≡ ok (reinspection calls digests names attachment 9)
committed_verifies_example =
    committed_verifies calls digests names request attachment 9 attachment_committed (omega arith)

verified-Unchanged_example :
    Unchanged calls digests names attachment
      (104 ∷ 105 ∷ [])
      (reinspection calls digests names attachment 9)
verified-Unchanged_example =
    verified-Unchanged calls digests names attachment (104 ∷ 105 ∷ []) 9
      (reinspection calls digests names attachment 9) committed_verifies_example

abbrev manifest : AttachmentManifest
manifest = record {
  manifest_id = "m";
  conversation_id = "c";
  turn_id = "t";
  trace_id = "x";
  principal = turn.principal;
  turn_content_sha256 = "turn";
  attachment_count = 1;
  total_bytes = 2;
  attachments = attachment ∷ [];
  committed_at = 6;
  manifest_sha256 = "systeme-local:attachment-manifest:v1";
}

manifest_committed :
    commit_attachment_manifest calls digests names turn "m" (attachment ∷ []) 6 ≡ ok manifest
unfolding commit_attachment_manifest check_attachments check_attachment signed_manifest
    valid_manifest valid_attachment valid_inspection valid_display_name before_dot strip_right
    attachment_metadata_sha256 attachment_manifest_sha256
manifest_committed = refl

committed_manifest_verifies_example :
    verify_attachment_manifest calls digests names manifest turn ≡ ok tt
committed_manifest_verifies_example =
    committed_manifest_verifies calls digests names turn "m" (attachment ∷ []) 6 manifest
      manifest_committed
