-- ===== src/Lib.antt =====
-- Lance for DuckDB: what its parts do, modelled from the source.
--
-- The extension plans in C++ (src/) and executes in Rust (rust/). A bound DuckDB expression crosses
-- the border as a byte message, which the C++ side writes and the Rust side parses into a DataFusion
-- expression.
--
--   Common    lists, options, results, Boolean tests and machine integers, which the parts share.
--   Wire      the bytes. Writer is AppendU8 to EncodeMessage of src/lance_expr_ir.cpp, Reader is
--             Cursor of rust/expr_ir.rs; Words and Frames are about the two together.
--   ExprIr    the messages. Types has the values of both sides; Literals, Nodes, Update and Scope are
--             src/lance_expr_ir.cpp (literals and types; the encoders of one node and the exported
--             functions; EncodeUpdateExprNode; the resolution of columns); Parser is
--             rust/expr_ir.rs. Meaning says which DataFusion expression a bound expression stands
--             for, without bytes; RoundTrip relates it to the bytes. Exports is the same for the
--             byte strings that the other encoders put together with the exported functions.
--             Exports.Regexp has its own account of patterns and options, and RoundTrip.Decimals of
--             the texts of decimals.
--             Fuel is about the fuel of the parser.
--   Filter    src/lance_filter_ir.cpp and rust/filter_ir.rs: the paths of columns (Columns), constants
--             and calls (Calls), the encoders of an expression (Expr) and of a table filter (Table),
--             the parts and the message (Parts), and the parser (Parser). Meaning says what a filter
--             stands for, with its own table of functions (Functions) and its own paths of columns
--             (Place); Sound relates it to the messages.
--   Exec      src/lance_exec_ir.cpp and rust/exec_ir.rs: the bytes of constants and types (Write), the
--             encoder of an expression (Expr), what may be pushed down (Pushdown), groups and
--             aggregates (Aggregates), the message (Message), and the parser (Parser). Meaning and Plan
--             say what a plan stands for, with their own tables of aggregates and operators
--             (Named); RoundTrip relates it to the messages, and Sorts says by which columns they
--             sort.
--   Blob      src/lance_blob_filesystem.cpp: an open handle on a blob with its read-ahead window
--             (File), the window's invariant (File.Window), and the plain file that a client sees
--             (File.Plain).
--   Cache     src/lance_dataset_cache.cpp: the state of a context's cache (State), its keys (Keys),
--             its interface to other parts (World), the lookup (Lookup), and opening and
--             invalidating through it (Open).
--   Resolver  src/lance_resolver.cpp: resolvers of dataset names, their registry (Registry) and the
--             resolution of an input under a policy (Resolution).
--   Uri       src/lance_common.cpp: the normalization of URI schemes and of dataset paths.
--   Options   src/lance_common.cpp: the canonical names of S3 options.
--   Tests     the theorems at concrete inputs.
--
-- Bytes are natural numbers, and a string is the list of its bytes. Signed integers are a data type
-- of their own, with the two's complement patterns that they are written as; floating point numbers
-- are their bit patterns. A C++ exception is the value of a Result, by its class. An out-parameter is
-- the result of the function.
--
-- parse_subexpr recurses into slices of its input. The model takes fuel, one unit for each level, and
-- parse_expr_ir gives one unit more than there are bytes; a slice is shorter than what it is cut from.
--
-- The recursion of Exec.Parser runs along the input, and takes one unit of fuel more than there are
-- bytes; each of its levels reads a byte (Exec.Fuel).
--
-- An operation on a handle or on the cache holds its lock, and is a function from state to state. In
-- ReadExact the read-ahead is the source's 1 MiB; unsigned subtractions are those of the source, and
-- the invariant keeps them from going below 0.
--
-- Parameters are what the code takes from others: DuckDB's StringUtil::Lower, its tests for infinite
-- dates and timestamps and its hugeint_t arithmetic (DuckDb), DataFusion's function registry and its
-- regular expression compiler (Session), DuckDB's casts of constants (Casts, and DuckDb of Exec), the
-- reads of a blob behind the FFI (ReadAt), what the dataset cache asks of the Rust library and of other
-- parts of the extension (Env), std::sort (IsSort), StringUtil::CIEquals (IsFolding), and the
-- normalization of paths behind the FFI (Library).
--
-- The parsers reserve memory for as many items as a message announces (Vec::with_capacity); that the
-- allocation may fail is not modelled.
--
-- Not modelled: opening a blob file by its URI (access checks); the scan, the search, writes, storage,
-- indexes, secrets and settings, most of whose code drives DuckDB, Arrow or the Rust library; the Rust
-- library behind the parsers.
pub mod Common
pub mod Wire
pub mod ExprIr
pub mod Filter
pub mod Exec
pub mod Blob
pub mod Cache
pub mod Options
pub mod Uri
pub mod Resolver
pub mod Tests
