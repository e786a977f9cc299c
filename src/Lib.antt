-- ===== src/Lib.antt =====
-- APFSearch: a model of the core of a file search engine, the Rust crate core/, and what is
-- proved of it.
--
-- The engine keeps rows of files in memory, reads a query as text, and evaluates the query on each
-- row. The parts that are modelled, by file:
--
--   Query/Lexer, Query/Keyword, Query/Parser (core/src/query.rs: `lex`, `keyword`, `modifier`,
--   `relation_scope`, `scoped_options`, `Parser::parse`): the text of a query becomes tokens, and
--   the tokens a tree. `Scan` and `turn` are the inner loop of `lex`; `lex_from` is the outer one.
--   `ExpressionFrame` and the list of suspended frames are those of `Parser::parse`, and `step` is
--   one turn of its loop. The reading of one atom, `atom_with_options`, and the map of macros are
--   parameters of `step`.
--
--   Query/Ast, Query/Fold, Query/Matcher, Query/Leaf, Query/Truth (core/src/query.rs;
--   core/src/relations.rs: `is_metric`, `ResolvedPredicate`; core/src/entry_table.rs: `FileEntry`):
--   the tree, the matcher of texts, one predicate on one row (`term_matches` for
--   `Term::matches_with_scratch`), and the evaluations of a tree: `matches_inner`, and the
--   three-valued `metadata_truth`, `indexed_truth` and `extraction_truth`, where `none` stands for
--   a value that is not known yet. `Vec<Query>` is the data type `Queries`.
--
--   TextView (core/src/text_view.rs): search in a text that is stored as two regions.
--   TextOrder (core/src/text_view.rs: `Ord::cmp`, `PartialEq::eq`): such texts compared span by span.
--   NaturalOrder (core/src/query.rs: `natural_cmp_folded`; core/src/text_view.rs: `natural_cmp`): the
--   order in which runs of digits are numbers. NaturalOrder/Tokens reads a text as numbers and bytes,
--   and NaturalOrder/Value gives the value of a run. `view_loop` is the loop of the views over two
--   iterators.
--   ResultOrder (core/src/result_order.rs): the orders of results (`result_cmp` for
--   `ResultOrder::compare`, with `field_cmp` for one field), which changes of a row concern an order,
--   and in ResultOrder/Sort the cancellable merge sort. A load of the flag `cancelled` is answered by
--   a function of the number of the load, so that another thread may set it at any time.
--   StatusSignal (core/src/status_signal.rs): observers that wait for a change of the status, as a
--   relation between the revision, the count of waiters and the threads.
--   Compare: `Ordering`, and the laws of a comparison (`IsLawful`).
--   Column (core/src/entry_table.rs): the values of a column, owned or in a mapping.
--   IntegerColumn (core/src/integer_column.rs): integers packed as offsets from their least rank.
--   IntegerColumn/Fill has the test of a range, and IntegerColumn/Codec the bytes of a column. The
--   three types of values are records of `Scalar`.
--   NameColumn (core/src/name_column.rs): the compilation of queries on names.
--   OrderedMerge (core/src/ordered_merge.rs): `insert_sorted`, which puts a sorted delta into a
--   sorted vector in place.
--   BitmapBuilder (core/src/bitmap_builder.rs): `RunBitmapBuilder`.
--   ChunkedVec (core/src/chunked_vec.rs): entries in blocks of 4096.
--   SlotOrder (core/src/slot_order.rs): the order of all slots in leaves.
--   SnapshotLeases (core/src/snapshot_leases.rs): the leases that keep a snapshot for a reader.
--   SnapshotLeases/Steps has sequences of operations, of what each does under one taking of the
--   lock too.
--   CpuExecutor (core/src/cpu_executor.rs): the budget of workers, as a relation between states of
--   counters and threads.
--
-- The numbers of the source are natural numbers, with the wrap-around or the saturation written out
-- where the source has it. A text is the list of its Unicode scalar values, and its bytes are its
-- UTF-8 encoding (Text). An error of the source is a value of Result; a panic is the `none` of an
-- Option.
--
-- What other crates do is a parameter. External is a record of what the query engine takes from
-- them, without any law: Unicode tables, substring search, regular expressions, numbers of
-- floating point, JSON values and sets of identifiers. Roaring is a record with the documented
-- meaning of the calls of the crate roaring; Roaring/Listed is an instance of it. The comparison
-- of OrderedMerge is any total preorder (`IsOrder`). The standard library's sort is a record
-- `Sorter` of the sort and what it is documented to do, and so is the binary search of a slice,
-- `Searcher`. A mapping is the list of its bytes, and begins at a multiple of every alignment.
--
-- Fuel: `lex_from` has one turn more than the input has characters, since each turn consumes one.
-- The parser has 24577 turns: each turn lowers three times the budget of 8192 expressions, with the
-- number of suspended frames and one for a frame that waits for an operator. The search of
-- occurrences in Query/Matcher has one turn more than the text has bytes. The galloping search has
-- as many turns as there are slots left. The natural order has one turn more than the first text has
-- bytes, and the order of two texts five turns, since each turn but the last ends one of four spans.
-- The sort has as many turns as there are slots for its chunks, for one pass, and for the passes,
-- whose width doubles.
--
-- Not modelled: the reading of atoms with its calendar and its wildcards, the selection of a
-- prefix of the results (`select_prefix`) and the reading of an order from JSON, the accounting of
-- memory, the storage of rows and postings, relations, the scanner and the file system, the index
-- on disk, the service and the user interface. In CpuExecutor the condition variable and the guard
-- of background requests are left out, so that the relation has more runs than the program. In
-- StatusSignal the value of the status and what `wait` returns are left out.
mod Prelude
pub mod Roaring
pub mod BitmapBuilder
pub mod OrderedMerge
mod Result
mod Integer
pub mod Text
pub mod TextView
pub mod External
pub mod Query
pub mod NameColumn
pub mod SnapshotLeases
pub mod ChunkedVec
pub mod CpuExecutor
pub mod SlotOrder
pub mod Compare
pub mod NaturalOrder
pub mod TextOrder
pub mod ResultOrder
pub mod Column
pub mod IntegerColumn
pub mod StatusSignal
