-- ===== src/Storage/Index/Codec.antt =====
-- The index file: what the entries' bytes are read back as.
use kage.Prelude.{
  wire_all, ◌<◌, ◌≡◌, refl, ap, ◌∙◌, List, [], ◌∷◌, ◌++◌, append_assoc, arith, Bytes, length, All,
  IsU32, IsU64,
}
use kage.Binary.{put_uint32, put_uint64}
use kage.Binary.RoundTrip.{uint32-put_uint32, uint64-put_uint64}
use kage.Storage.Index.{Entry, put_entry, load_entries}

pub record EntryFits (e : Entry) : Type 0 where
  pub offset : IsU64 e.offset
  pub position : IsU32 e.position

load_entries-put_entry :
    (e : Entry) (rest : Bytes)
    → EntryFits e
    → load_entries (put_entry e ++ rest) ≡ e ∷ load_entries rest
unfolding load_entries put_entry put_uint64 put_uint32
load_entries-put_entry e rest f =
    ground (arith, uint64-put_uint64 e.offset [], uint32-put_uint32 e.position [])

load_entries-short : (b : Bytes) → length b < 12 → load_entries b ≡ []
unfolding load_entries
load_entries-short (a ∷ b ∷ c ∷ d ∷ e ∷ f ∷ g ∷ h ∷ i ∷ j ∷ k ∷ l ∷ rest) short =
    absurd (omega arith)
load_entries-short _ short = refl

-- Entries whose offsets fit 64 bits and whose positions fit 32 are read back from the bytes that
-- are written for them, and a last entry that was cut off after fewer than 12 bytes is left out.
pub load_entries-wire_all :
    (es : List Entry) (cut : Bytes)
    → All EntryFits es
    → length cut < 12
    → load_entries (wire_all put_entry es ++ cut) ≡ es
unfolding wire_all
load_entries-wire_all [] cut f h = load_entries-short cut h
load_entries-wire_all (e ∷ es) cut f h = rw append_assoc (
    load_entries-put_entry e (wire_all put_entry es ++ cut) f.0
    ∙ ap (λ t. e ∷ t) (load_entries-wire_all es cut f.1 h))
