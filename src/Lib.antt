-- ===== src/Lib.antt =====
-- wookie: a crawler that stores web pages in elliptics, a reverse index over their words, and a
-- search over that index with quoted phrases.
--
-- The parts, and the files that model them:
--  - Engine, Engine/*: the crawler of lib/engine.cpp. `process_url` takes a reply from the map of the
--   urls in flight and hands the page to `process_reply`, which stores it, calls the processors and
--   follows the links. Handlers are functions from `EngineData` to `EngineData`; what they start
--   outside is recorded in `log`. Engine/Reply is one handler, Engine/Crawl a sequence of them,
--   Engine/Threads the handlers of several threads, interleaved.
--  - CommandLine, CommandLine/*: `parse_command_line` and `run` of lib/engine.cpp, and Decimal, Decimal/*:
--   include/wookie/lexical_cast.hpp, whose numbers `atoi` reads back.
--  - Split, Split/*: the splitter of include/wookie/split.hpp, `feed`.
--  - Splitter, Splitter/*: lib/basic_elliptics_splitter.cpp, which makes of the splitter's map the
--   reverse indexes of a document.
--  - Operators, Operators/*: include/wookie/operators.hpp. Scan is the parser of a request
--   (`operators_found`, `prepare`), Match the phrase test of `on_result_ready`, Find the whole
--   search, Find/Asking the requests of one quoted part at most, said by their own words, Wait the
--   search that waits for its result.
--  - MsgPack, Documents, Documents/*: the stored structures of include/wookie/document.hpp,
--   include/wookie/index_data.hpp and test/similarity/simdoc.hpp as msgpack objects.
--  - Storage, Storage/*: lib/storage.cpp, the calls of elliptics.
--  - TfIdf, TfIdf/*: include/wookie/tfidf.hpp, and `update_tfidf` of include/wookie/parser.hpp.
--  - Parser, Parser/*: include/wookie/parser.hpp, the walk over the tree that tidy makes of a page, and
--   `create_href_parser` of lib/engine.cpp. Magic is the class `magic` of include/wookie/url.hpp.
--  - Iconv, Iconv/*: include/wookie/iconv.hpp, the loop around iconv, which Parser calls through
--   `charset_convert` of Iconv/Decode.
--  - Hash, Hash/*: include/wookie/hash.hpp. Directories is include/wookie/dir.hpp, Downloader the two
--   `feed`s of include/wookie/dmanager.hpp, and Timer include/wookie/timer.hpp.
--  - Score, Score/*: include/wookie/score.hpp.
--  - Similarity, Similarity/*: test/similarity. The module has the features of two documents
--   (similarity.hpp), Loader the training and the check of elliptics_load_docs.cpp, Pairs the
--   file of pairs that elliptics_parse_docs.cpp reads, and Parse its threads, which Threads
--   interleaves and Frequencies merges; Stored is the way of the elements from one to the other.
--  - Http, Http/*: the handlers of httpserver/server.cpp.
--  - Index, Index/*: the upload of httpserver/server.cpp with elliptics behind it. History is any
--   sequence of uploads, Answers a search after them. `IsIndexing` is what is relied on of elliptics:
--   an update replaces the indexes of its object, and a search returns the objects that have all of
--   the indexes asked for, with their data.
--  - Pipeline, Pipeline/*: `meta_info_t` and the pipeline of include/wookie/application.hpp, and the
--   applications processors/first_processor.cpp, html_processor.cpp, feature_extractor.cpp,
--   stub_processor.cpp and last_processor.cpp.
--  - Recovery, Recovery/*: the handler of processors/recovery.cpp as a step relation.
--  - Base, Base/*: bytes and strings, ordered maps, sorting, intersection, bags,
--   results, and their lemmas.
--
-- They meet in the index, in Index: Splitter packs the position lists of Split as `index_data`, Storage writes
-- them, and Operators/Find unpacks them, inverts them to a map from position to token and runs the
-- test of Operators/Match over it for every quote that Operators/Scan found.
--
-- A string is a list of bytes, `std::map` and `std::set` are association lists in ascending order of
-- the keys, `size_t` wraps at 2^64 where a sum is kept in one, and an exception is an error value.
-- Loops are recursions over lists, but for the loop around iconv, whose fuel is the length of the
-- text, of which every call that does what iconv documents leaves less, the two of
-- `lexical_cast`, whose fuel is 20, the digits of 2^64, and the loops of a thread of
-- test/similarity/elliptics_parse_docs.cpp over its positions, whose fuel is the number of all of
-- them, of which each turn leaves one or more behind.
-- boost::locale, tidy, libmagic, iconv, msgpack's bytes, elliptics, swarm's urls and downloads, and
-- floating-point numbers are parameters (`Locale`, `Iconv`, `Codec`, `Elliptics`, `UrlOps`,
-- `Outside`, `Double`), with what the code relies on as named hypotheses.
--
-- A move of a thread in Engine/Threads reaches from one call under the lock of the map in flight to
-- the next; the other members of `engine_data` do not change while it runs.
--
-- Not modelled: the threads of the downloader and the event loop under them, which are swarm's and
-- libev's, the JSON text of the server's replies and rift's base classes of its handlers, and the test
-- programs but for the parts of test/similarity named above.
pub mod Base
pub mod CommandLine
pub mod Decimal
pub mod Directories
pub mod Documents
pub mod Downloader
pub mod Engine
pub mod Hash
pub mod Http
pub mod Iconv
pub mod Index
pub mod Magic
pub mod MsgPack
pub mod Operators
pub mod Parser
pub mod Pipeline
pub mod Recovery
pub mod Score
pub mod Similarity
pub mod Split
pub mod Splitter
pub mod Storage
pub mod TfIdf
pub mod Timer
