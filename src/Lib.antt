-- ===== src/Lib.antt =====
-- dup-detector finds duplicate files and duplicate directories and removes copies of them. This
-- library models its core: how duplicates are found, how they become a queue of deletions, and
-- what a deletion leaves.
--
-- Prelude: lists, sorting and Go maps. Text: strings as bytes, with what the program uses of the
-- packages strings and path/filepath. Files: the records of scan.go, detect.go, tree_dup.go and
-- overlap.go.
-- Glob: glob.go. Detect: detect.go and store_detect.go, with the queries of filestore.go that
-- they make. Overlap: overlap.go. Filter: filter.go, with Match for filepath.Match. Scan:
-- scan.go and inode.go over a tree of entries, and ScanToStore of filestore.go; Steps reads a
-- walk as a list of files, Reach says which entries a walk comes to. Store: filestore.go, the
-- batches in which files are added, the query for a directory, and CoverageAndSize, with Kept
-- for stores that outlive a run. Cache: cache.go and the sidecar test of metadata.go, with
-- Opening for the path, the owner and the database. Trash: trash.go, the loop over names and the
-- record, and Place for the trash of a path. Copy: copy.go, one file in Copy itself, a directory
-- and the subcommand in Tree, and the workers in Pool, as a relation of steps. TreeDup:
-- tree_dup.go, with Below on filesUnderDir and Domination on treeDominated, ByHash for
-- FindTreeDupsByHash, Incremental for AddGroups, and Incremental/Checked for AddGroups with the
-- checks over the store; TreeDup/Stored: store_tree.go, which asks for a hash through the
-- interface TellsContent of Stored/Content, which Cache/Trust fills. A scan fills a store,
-- detection and the tree pairs read it, and the pairs and groups become the queue of Cleanup.
-- Cleanup: cleanup.go and headless.go, in Dispose (disposeFile, deleteTree, deleteOverlapSide),
-- Cadence (the reordering by backup cadence), Actions (the queue and its actions), Indices and
-- Prompt (the interactive run), and Headless. Media: media.go. Sizes: ParseSize and FormatSize
-- of util.go. Options: what run of main.go makes of its flags, rules and arguments. Report:
-- no_interactive.go. Output: output.go, with Simple for its simple format. Run: run of main.go,
-- which composes all of these. Examples: sample data and runs.
--
-- Functions carry the names of the source in snake_case. A map is an association list in the
-- order of its keys' first writes; a range over one, like sort.Slice among equal elements, goes
-- by an Order, an arbitrary rearrangement that is an argument. An int64 is its 64-bit pattern:
-- sums and products wrap, and comparisons go through signed_rank. Counts of files and indices
-- are unbounded numbers. A panic is none; where the code can also return an error, the result is
-- a Run: done, failed or panic. The map of deleted paths and the disk are explicit state; the
-- disk is a record of the operations used, with any outcome allowed. The input of the prompts is
-- a list of lines. The hash of a file's content is a parameter of the content pass. Literal text
-- is ASCII, as are the letters that to_lower changes and the white space that trim_space
-- removes.
--
-- Recursion that follows a path takes fuel for its length, which is enough because each step
-- drops at least one byte; walkDirs takes fuel for the longest path the disk can read, since
-- each level adds at least a slash; the search takes fuel for the number of files;
-- matchDoubleStar takes fuel for the length of its pattern, as each call drops its two stars; a
-- copy takes fuel for the length of the file; the loop over names in the trash has no bound in
-- the code, and its fuel is an argument; the search for a mount root takes fuel for the length
-- of the path, as filepath.Dir makes it shorter; FormatSize has six larger units, and execRetry
-- makes 60 tries; the chunks of a block take fuel for the number of items.
--
-- Not modelled: messages, progress, the parsing of flags, what a run writes to the database of
-- its hash cache (its hashes are a parameter of Run), profiling (pprof.go), and the media fields
-- of a sidecar but for their extraction. The workers that verify pairs and hash files collect by
-- index, and are run one after the other; those of a copy are modelled. Outside the repository,
-- and so parameters: the database, of which the model knows which calls succeed and the rows
-- that a query reads; the entries that a walk of the disk meets, and its count of files;
-- relative and absolute paths; float64 numbers; ffprobe and the decoders of images; users,
-- processes and the environment; the CSV writer and the encoder of JSON; the parsed sidecar and
-- the MD5 of a file; which file calls of the trash and of a copy succeed.
pub mod Prelude
pub mod Text
pub mod Files
pub mod Glob
pub mod Output
pub mod Overlap
pub mod Store
pub mod Scan
pub mod Trash
pub mod Copy
pub mod Cache
pub mod TreeDup
pub mod Detect
pub mod Cleanup
pub mod Examples
pub mod Filter
pub mod Sizes
pub mod Media
pub mod Options
pub mod Report
pub mod Run
