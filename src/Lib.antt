-- ===== src/Lib.antt =====
-- Elmo is a document database in Rust. Its storage engine is the log-structured merge tree of
-- lsm/src/lib.rs, which stands on the byte helpers of misc/src/lib.rs; its documents are those of
-- bson/src/lib.rs. This library models the part of the engine that decides which pages of the file
-- are whose, the encodings it writes, and the cursors through which it is read, and of the documents
-- the values, their binary encoding, and the changes along a path.
--
--   Common     Booleans and comparisons on the native numbers, the monad of panics (`Option`, where
--              `none` is a failed assertion, an index out of bounds or an `unreachable!()`), lists
--              with bounds, disjoint bits, and the stable sort of `sort_by`.
--   Varint     misc/src/lib.rs, `varint` and `push_varint`: a `u64` in one to nine bytes. A byte is
--              a number below 256, a buffer a list of bytes, and the cursor `*cur` is passed along.
--   Endian     misc/src/lib.rs, `endian`, `bytes` and the readers of unsigned numbers.
--   Lsm.PageBlock
--              lsm/src/lib.rs, `PageBlock`: a run of pages, and `intersect`.
--   Lsm.BlockList
--              lsm/src/lib.rs, `BlockList`: a list of runs, its sorting, difference and gaps, and in
--              Lsm.BlockList.Codec its encoding as varints.
--   Lsm.Space  lsm/src/lib.rs, `Space`: the free list of the file. Lsm.Space.Request has
--              `BlockRequest`, Lsm.Space.Find the searches inside `get_block`, and Lsm.Space.Used
--              the abstract view that the theorems on `Space` are about: the set of pages in use.
--   Lsm.Space.Locks
--              lsm/src/lib.rs, `Space`: rlocks, zombies and dependencies, `maybe_release_segment` on
--              fuel, and in Lsm.Space.Locks.Steps the calls on `Space` in any order.
--   Lsm.Bcmp, Lsm.KeyRef
--              lsm/src/lib.rs, `bcmp` and `KeyRef`: byte strings, and keys in three forms.
--   Lsm.Cursor lsm/src/lib.rs, the traits of cursors as a record of calls. Lsm.Cursor.Forward has
--              the laws of the calls that go forward, which a client takes as a parameter, and
--              Lsm.Cursor.Run the loop of a client.
--   Lsm.MultiCursor
--              lsm/src/lib.rs, `MultiCursor`: one cursor over several. Lsm.MultiCursor.Sort has its
--              sort, Lsm.MultiCursor.Merged the abstract view, one ordered list in which the entries
--              of an earlier cursor hide those of a later one, and Lsm.MultiCursor.Refine relates
--              both by the interface of Lsm.Cursor.Forward.
--   Lsm.LivingCursor, Lsm.RangeCursor, Lsm.PrefixCursor
--              lsm/src/lib.rs, the cursors that pass over tombstones, keep to bounds, and keep to a
--              prefix, over any cursor with those laws. The source puts them on a `MultiCursor`, as
--              Lsm.MultiCursor.Loops does for `LivingCursor`. The `PageCursor`s below are parameters.
--   Lsm.Sizes  lsm/src/lib.rs, `pages_needed_for`, `calc_overflow_pages`, `utils::page_offset` and
--              `get_level_size_in_bytes`.
--   Bson       bson/src/lib.rs, `Value`, `Array` and `Document`. Bson.Text has what is used of text,
--              Bson.Encode `to_bson` and equality, Bson.Decode `from_bson` with the readers below it
--              and those of misc/src/lib.rs, `bufndx`. Bson.Format describes the bytes, and Bson.Valid
--              the values that can be written and read back. Bson.Keys has a document as a map from
--              keys to values and `validate_id`, Bson.Nesting `validate_depth`, Bson.KeyNames
--              `validate_keys`, and Bson.Paths `entry`, `set_path` and `unset_path` along a path with
--              dots: a reference into a document is the part with a function that puts it back.
--
-- A method with `&mut self` is a function that returns the new state. Page numbers are unbounded
-- in `PageBlock`, `BlockList` and `Space`; the encodings have the wrap-around of `u64`. The
-- loop of `remove_anything_in` is on fuel: a round drops a block from one of two lists, and
-- the fuel is the sum of their lengths. That of `maybe_release_segment` is one more than the number
-- of dependencies, since a nested call drops one. A `HashMap` is a list of entries without a key
-- twice (Common.Map). The loops over cursors get fuel as a parameter: more than the number of entries
-- is enough. Where calls return errors too, the result is an `Outcome`. The loops of `from_bson` get
-- one more than the number of bytes: a round reads a byte that is there. A string is its UTF-8 bytes,
-- and an `f64` or a signed number its bits. `set_path` gets the number of names in the path: a nested
-- call has one name less.
--
-- Not modelled: the pages of the tree, the header page, `PageWriter`, `MergeCursor` and the merges of
-- segments (lsm/src/lib.rs), `Sqlite4Num` (misc/src/lib.rs), `walk_path`,
-- `exclude_path` and the index keys of documents (bson/src/lib.rs), and the matcher and the
-- collections (elmo, storage/lsm), which this library does not reach; the conversions between number
-- types (bson/src/lib.rs), which need the arithmetic of `f64`; file input and output, the page cache,
-- threads and channels (lsm/src/lib.rs), the server and the SQLite storage, which are not functions
-- of their arguments; and rust-sqlite, a copy of another project.
pub mod Bson
pub mod Common
pub mod Endian
pub mod Lsm
pub mod Varint
