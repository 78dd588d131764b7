-- ===== src/Lib.antt =====
-- A model of the parts of reinstinct, an inference engine for GPUs, that decide what it computes: the
-- loading of a model file, the choice of tokens, and the loop of speculative decoding.
--
-- Parts and files:
-- * src/gguf/ (Gguf and the modules below it): the GGUF v3 loader. `Reader` is a cursor over the bytes
--   of the mapped file, `Value` and `TensorInfo` read metadata values and tensor descriptors, `File` is
--   `from_mmap` and the lookups. A number is natural, bounded by its width; u64 sums and products wrap
--   as in a release build. A string is its UTF-8 bytes, a float its bit pattern.
-- * src/sampling.rs (Sampling): the generator, the greedy pick and the draws, over an interface for
--   f32 (Base.Float). The same interface stands for f64 where a statistic is one. `Chain` is the sampler
--   of a request: the bit patterns of f32, the unstable sort and the unstable selection are parameters.
-- * src/runtime/spec_decode.rs (SpecDecode): the loop of speculative decoding. It calls the sampler; the
--   forwards of the target and of the drafter run on the device and are the interface `Engine`.
-- * src/runtime/kv_superquant.rs (SuperQuant): the two-tier KV cache, its buffers by position; the
--   kernels that quantise and promote rows are parameters.
-- * src/runtime/pipeline.rs (Pipeline): the split of a model over devices, which counts the bytes of the
--   loader's descriptors, the chunks of a prefill, and the walk over the stages (`Drive`), whose engines
--   and driver are an interface.
-- * src/chat.rs (Chat): the families of chat templates, and the rendering of Gemma and Qwen
--   conversations with the tokenizers below.
-- * src/serve/mod.rs (Serve): `Request` is the parsing of bodies, `Route` what a connection does with a
--   request, `Worker` the loop over the queue with its counters, `Generate` the Qwen branch of
--   `generate` over an interface for the device, `Reply` the JSON of the replies, `PrefixCache` the cache
--   of prompt prefixes, whose snapshots are any values, and `Thinking` the stripper of thinking
--   preambles. The clock, the measured times, the conversions of floats and the texts of error
--   messages are arguments; a job's messages are a list.
-- * src/serve/json.rs (Serve.Json): the JSON parser and printer, with f64 as the interface `Numbers`. The
--   cursor of the parser is the text that is left.
-- * src/serve/http.rs (Serve.Http): a request read from the bytes of a connection, and the text of a
--   response.
-- * src/quant/half.rs (Quant.Half): the conversions between halves and f32, on bit patterns.
-- * src/tokenizer.rs (Tokenizer): byte-level BPE, loaded from a model file, and the metaspace tokenizer
--   (`Tokenizer.Gemma`). The pre-tokenizer's regex is the parameter `find_from_pos`, of which the
--   theorems ask that it matches ranges of whole characters; the lossy UTF-8
--   conversion at the end of decoding is a parameter, and the identity on valid UTF-8.
--
-- A fallible function returns an `Outcome`: `ok`, `err` for a `Result` that is an error, `panic` for
-- an assertion or an index out of range, `stuck` where fuel ran out.
--
-- Fuel: `Gguf.Value.read` nests as deep as bytes remain, and every nesting takes a byte; `SpecDecode.
-- Round.run` makes `max_tokens` passes, and every pass commits a token; `Pipeline.cut` makes as many
-- rounds as there are tokens, `Pipeline.grow` as many as blocks are left.
-- `Serve.Json.Parse.value` nests at most 256 deep, and its loops take a byte in every round;
-- `Tokenizer.merge_all` removes a piece in every round. A decode loop makes `max_tokens` rounds.
--
-- Not modelled: the Gemma branch of `generate`, device kernels and their launches, file mapping,
-- threads, network and terminal I/O.
pub mod Base
pub mod Chat
pub mod Gguf
pub mod Pipeline
pub mod Quant
pub mod Sampling
pub mod Serve
pub mod SpecDecode
pub mod SuperQuant
pub mod Tokenizer
