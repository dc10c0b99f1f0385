-- ===== src/Inspect.antt =====
-- src/systeme_local_gateway/providers/attachment_commit.py: the inspection of the bytes of an
-- attachment, and the commitments that rest on it.
pub mod Bytes
pub mod Settled
pub mod Png
pub mod Jpeg
pub mod Content
pub mod Commit
mod Examples
