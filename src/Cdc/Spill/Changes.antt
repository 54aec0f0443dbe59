-- ===== src/Cdc/Spill/Changes.antt =====
-- A spill holds the changes that were appended to it.
use mathlib.Core.List.{append_assoc, append-nil}
use pgmigrate.Base.{
  ℕ, ◌+◌, ◌≤◌, ◌<◌, ◌≡◌, refl, sym, ap, ◌∙◌, List, [], ◌∷◌, ◌++◌, some, arith, false,
}
use pgmigrate.Base.Bytes.{length-append_bytes}
use pgmigrate.Base.Lists.{
  length, length-concat_map-cons, length-concat_map-ge, concat_map, All, take, take-length-append,
  length-append,
}
use pgmigrate.Base.Results.{ok, fold_result}
use pgmigrate.Cdc.Model.{Change, TransactionSpill}
use pgmigrate.Cdc.Codec.Size.{max_u32}
use pgmigrate.Cdc.Codec.Decode.{read_many}
use pgmigrate.Cdc.Codec.Write.{Writer}
use pgmigrate.Cdc.Codec.Stream.{decode_change_reader}
use pgmigrate.Cdc.Codec.Layout.{change_bytes, Fits, CanonicalChange}
use pgmigrate.Cdc.Codec.Sizes.{encoded_change_size_lem}
use pgmigrate.Cdc.Codec.Decodes.{change_least, read_many-concat_map}
use pgmigrate.Cdc.Codec.Writes.{Accepts, write_change_to_lem}
use pgmigrate.Cdc.Codec.Streams.{decode_change_reader_lem}
use pgmigrate.Cdc.Spill.{append_change, spilled_changes, new_transaction_spill}

-- The spill's file and counters are those of the changes, which fit a payload.
pub record Holds (s : TransactionSpill) (cs : List Change) : Type 0 where
  pub contents : s.file ≡ some (concat_map change_bytes cs)
  pub size : s.change_bytes ≡ length (concat_map change_bytes cs)
  pub count : s.change_count ≡ length cs
  pub version : s.version ≡ 2
  pub changes : All CanonicalChange cs
  pub fits : Fits (concat_map change_bytes cs)

pub new-Holds : Holds new_transaction_spill []
unfolding concat_map
new-Holds = record {
  contents = refl;
  size = refl;
  count = refl;
  version = refl;
  changes = tt;
  fits = omega arith;
}

pub concat_map-snoc :
    (cs : List Change) (c : Change)
    → concat_map change_bytes (cs ++ c ∷ []) ≡ concat_map change_bytes cs ++ change_bytes c
unfolding concat_map
concat_map-snoc [] c = append-nil (change_bytes c)
concat_map-snoc (x ∷ xs) c =
    rw (concat_map-snoc xs c, append_assoc (change_bytes x) (concat_map change_bytes xs))

pub All-snoc :
    (cs : List Change) (c : Change)
    → All CanonicalChange cs
    → CanonicalChange c
    → All CanonicalChange (cs ++ c ∷ [])
All-snoc [] c hs h = (h, tt)
All-snoc (x ∷ xs) c hs h = (hs.0, All-snoc xs c hs.1 h)

take_all : (xs : List ℕ) → take (length xs) xs ≡ xs
take_all xs = ap (take (length xs)) (sym (append-nil xs)) ∙ take-length-append xs []

read_changes :
    (cs : List Change)
    → All CanonicalChange cs
    → read_many (decode_change_reader false 2) (length cs) (concat_map change_bytes cs)
      ≡ ok (cs, [])
read_changes cs h =
    ap (read_many (decode_change_reader false 2) (length cs))
      (sym (append-nil (concat_map change_bytes cs)))
    ∙ read_many-concat_map (decode_change_reader false 2) change_bytes
        (decode_change_reader_lem false) cs [] h

-- Reading a spill back gives the changes that it holds, in order.
pub spilled_changes_lem :
    (s : TransactionSpill) (cs : List Change) → Holds s cs → spilled_changes s ≡ ok cs
unfolding spilled_changes
spilled_changes_lem s cs h =
    rw (h.contents, h.size, h.count, h.version, take_all, read_changes cs h.changes) (ground arith)

pub extended : TransactionSpill → List Change → Change → TransactionSpill
extended s cs c = record s {
  file = some (concat_map change_bytes cs ++ change_bytes c);
  change_count = length cs + 1;
  change_bytes = length (concat_map change_bytes cs) + length (change_bytes c);
}

pub extended-Holds :
    (s : TransactionSpill) (cs : List Change) (c : Change)
    → Holds s cs
    → CanonicalChange c
    → Fits (concat_map change_bytes cs ++ change_bytes c)
    → Holds (extended s cs c) (cs ++ c ∷ [])
unfolding extended
extended-Holds s cs c h hc fits = record {
  contents = rw (concat_map-snoc cs c);
  size = rw (concat_map-snoc cs c, length-append_bytes (concat_map change_bytes cs));
  count = rw (length-append cs (c ∷ []));
  version = h.version;
  changes = All-snoc cs c h.changes hc;
  fits = rw (concat_map-snoc cs c) fits;
}

few_changes : (cs : List Change) → Fits (concat_map change_bytes cs) → length cs < max_u32
few_changes cs h = omega (arith, length-concat_map-ge change_bytes 7 change_least cs)

-- A change that fits behind those that a spill holds is appended to them.
pub append_change_lem :
    (write : Writer)
    → Accepts write
    → (s : TransactionSpill) (cs : List Change) (c : Change) → Holds s cs
    → CanonicalChange c
    → Fits (concat_map change_bytes cs ++ change_bytes c)
    → append_change write s c ≡ ok (extended s cs c)
unfolding append_change extended
append_change_lem write accepts s cs c h hc fits =
    rw
      (
        h.contents,
        encoded_change_size_lem c hc,
        write_change_to_lem write accepts (concat_map change_bytes cs) c hc,
      )
      (ground (
        arith,
        h.size,
        h.count,
        few_changes cs h.fits,
        length-append_bytes (concat_map change_bytes cs) (change_bytes c),
      ))

room :
    (done : List Change) (c : Change) (cs : List Change)
    → length (concat_map change_bytes done) + length (concat_map change_bytes (c ∷ cs)) ≤ max_u32
    → Fits (concat_map change_bytes done ++ change_bytes c)
      × (length (concat_map change_bytes (done ++ c ∷ [])) + length (concat_map change_bytes cs)
          ≤ max_u32)
room done c cs h =
    let total = ap length (concat_map-snoc done c) in
    let size = length-append_bytes (concat_map change_bytes done) (change_bytes c) in
    let rest = length-concat_map-cons change_bytes c cs in
    (omega (arith, size, rest), omega (arith, total, size, rest))

pub append-All :
    (write : Writer)
    → Accepts write
    → (s : TransactionSpill) (done cs : List Change) → Holds s done
    → All CanonicalChange cs
    → length (concat_map change_bytes done) + length (concat_map change_bytes cs) ≤ max_u32
    → (t : TransactionSpill) × (fold_result (append_change write) s cs ≡ ok t)
      × Holds t (done ++ cs)
unfolding fold_result
append-All write accepts s done [] holds h fits = (s, refl, rw (append-nil done) holds)
append-All write accepts s done (c ∷ cs) holds h fits =
    let (t, built, all) =
      append-All write accepts (extended s done c) (done ++ c ∷ []) cs
        (extended-Holds s done c holds h.0 (room done c cs fits).0) h.1 (room done c cs fits).1 in
    (
      t,
      rw (append_change_lem write accepts s done c holds h.0 (room done c cs fits).0) built,
      rw (append_assoc done (c ∷ []) cs) at all,
    )

-- Appending changes that the format carries one after another to a new spill, whose file takes every
-- write, succeeds while together they fit a payload; reading the spill back gives exactly these
-- changes, and the spill counts the changes and their bytes.
pub spilled_changes-append_change :
    (write : Writer)
    → Accepts write
    → (cs : List Change) → All CanonicalChange cs
    → Fits (concat_map change_bytes cs)
    → (s : TransactionSpill) × (fold_result (append_change write) new_transaction_spill cs ≡ ok s)
      × (spilled_changes s ≡ ok cs)
      × (s.change_count ≡ length cs)
      × (s.change_bytes ≡ length (concat_map change_bytes cs))
spilled_changes-append_change write accepts cs h fits =
    let (s, built, holds) =
      append-All write accepts new_transaction_spill [] cs new-Holds h
        (unfold concat_map in omega arith) in
    (s, built, spilled_changes_lem s cs holds, holds.count, holds.size)
