-- ===== src/Lib.antt =====
-- The verification library of gopkg, a collection of Go packages for services: voice calls with a
-- language model, caching, money, resilience, registries, pipelines, audio, message routing, slices and
-- SQL text. The packages do not share state; a service composes them: the voice pipeline calls the
-- audio code, and its transport and its model are adapters; so is the provider of the orchestrator, and
-- the SMS router looks its providers up in their registry. What follows says which file models which
-- package, and how.
--
-- Common        The shared base: Boolean tests on the native numbers, lists measured by them, the
--               integers ℤ, Go's comparable types, Go's maps as association lists (Common.Assoc),
--               text as code points (Common.Text), decimal digits (Common.Decimal), the pair of a value
--               and an error as Result.
--               Common.Float is the interface of float64: its operations are a parameter, the facts of
--               IEEE 754 that a theorem needs are hypotheses, and whole numbers show that they can be met.
-- VoicePipeline  voice/pipeline. Bridge is codec_bridge.go, on top of Codec. Batch is the tool calls of
--               one event, dispatchToolCalls, as a step relation on the states of its goroutines; a
--               schedule names who moves next. Dispatch is what an event of the model does, Session the
--               state of pipeline.go, its steps on the inputs from outside, and Run, Causes which
--               input ends a session; Itoa is its number printer. The adapters (transport, model, tool
--               executor, hold filler, observer) are the parameter Env, whose answers may depend on all
--               that was done before.
-- GeminiLive    voice/llm/gemini, a model of the voice pipeline. Opening is what is written to the server
--               (Open, the writes, Close), Stream the translation of its messages into the pipeline's
--               events, Base64 the standard coding of audio. The socket is a parameter.
-- WhatsappTransport  voice/transport/whatsapp/transport.go, a transport of the voice pipeline: the buffer
--               of samples, the bounded queue of packets, the sender's rounds, Receive. The Opus coder and
--               the WebRTC connection are a parameter.
-- GeminiText    ai/llm/geminitext, a provider of Orchestrator: the contents of a request and the
--               response; Tools is how tools are declared, Client the client with its options and the
--               call, HTTP and JSON being a parameter; Wired joins it to Orchestrator.
-- BotManager    communication/telegram/bot/core/manager.go: the maps under the mutex, the sections of
--               syncBot, loadAndSync and Stop, and handleWebhook; Moves has the goroutines of startBot and
--               the reload loop as threads that move in any order, one section of the mutex at a time.
-- Orchestrator  ai/orchestrator/orchestrator.go, with ai/llm/llm.go and registry.go and the messages of
--               ai/conversation: one user message, the model's answers, the tool calls in between. The
--               model and the dispatcher are parameters. Prompts is prompts.go.
-- Conversation  ai/conversation/cache.go: the window of messages kept in Redis; Redis and the JSON
--               encoding are a parameter, with what they document as laws.
-- Lru           cache/lru/lru.go. The cache is the record Cache: the recency list of entries, each with
--               the identity of its list element, and the map from keys to elements. Get, Set, Delete,
--               Clear and Len are functions on it; the clock is an argument. Refine relates them to a
--               specification on the list alone.
-- Money         money/money.go. Minor units are an ℤ with int64's wrap-around (Money.Int64); New, the
--               arithmetic, the overflow tests and the comparisons are modelled as written; Text is String.
-- WorkerPool    workerpool/workerpool.go: the workers and the callers as threads, whose moves follow in
--               any order; the channel without a buffer is one move of a caller and a worker.
-- Fx            financial/fx/fx.go: the table of rates, its two implementations and the conversion.
-- PaymentGateway  financial/paymentgateway/paymentgateway.go: the reference of a payment in its callback
--               URL; the rest of the package is an interface.
-- Retry         retry/retry.go: Do with its policy. The function's outcomes, the context and the random
--               numbers are the parameter World; the sleeps are part of the result.
-- Errorsx       errorsx/errorsx.go: an error is the chain of what it wraps; errors.Is and errors.As walk it.
-- CircuitBreaker  circuitbreaker/circuitbreaker.go and config.go. Settings are the configuration and
--               its normalisation, Classify the decision which errors count; Execute runs a function
--               whose outcome is an argument. A trace is a list of calls with the time of each.
-- Registry      registry/registry.go: the Registry and the PendingQueue that waits for one; the
--               deferred functions are functions on the registry.
-- FilterPipeline  pipeline/pipeline.go: Run and RunPhase with the step logs they return. A filter is a
--               record of its methods; its result, a value or an error, is what its method returns.
-- Codec         audio/codec/codec.go: the mu-law tables and code, the two resamplers, and the two
--               composed byte streams.
-- Slicex        slicex/slicex.go: the generic helpers.
-- SmsRouter     communication/router/sms_router.go: the routing table, its bubble sort, the country
--               code of a number and the choice of a provider; Sending is SendSMS, with ProviderRegistry
--               behind the router. What a provider does is a parameter.
-- ProviderRegistry  communication/provider: the registry of delivery providers, its two maps as lists.
-- SqlBuilder    sqlbuilder/sqlbuilder.go: the query builder and its two queries, as text.
--
-- In each part the parent file has the state and the operations, the children the lemmas and the
-- theorems, and Examples the tests and the theorems at concrete inputs.
--
-- Loops are recursions on the list they walk, or on a count of the rounds left. Slicex.chunk_from
-- has the length of the slice as fuel, which is enough since every round takes an element; the loop
-- that finds the exponent in Codec has the eight rounds of the source; the digits of a number are
-- computed with a fuel larger than the number. The voice pipeline's printer has the 20 bytes of its
-- buffer, which hold every int64; Orchestrator.hops counts the hops that are left,
-- Retry.attempts_from the attempts. GeminiText.history_contents has the number of turns as fuel and
-- WhatsappTransport.encode_frames the number of samples, since each round takes some. A Go int that
-- only counts the elements of a slice is a number
-- without bound; int64 amounts and offsets wrap.
--
-- Not modelled: the frames that a hold filler may still send after its batch is done; locks (each
-- operation is one step, as the mutex makes it) and the goroutines other than
-- those of a tool batch, the inputs of a session and those of BotManager and WorkerPool;
-- logging; of BotManager the first retries of Start, the health report and the notifications; the
-- other adapters that talk to a service over the network, and the packages that only wrap a library.
-- The packages ratelimit, mapx, validate and stringcase are not modelled.
pub mod Common
pub mod BotManager
pub mod CircuitBreaker
pub mod Codec
pub mod Conversation
pub mod Errorsx
pub mod FilterPipeline
pub mod Fx
pub mod GeminiLive
pub mod GeminiText
pub mod Lru
pub mod Money
pub mod Orchestrator
pub mod PaymentGateway
pub mod ProviderRegistry
pub mod Registry
pub mod Retry
pub mod Slicex
pub mod SmsRouter
pub mod SqlBuilder
pub mod VoicePipeline
pub mod WhatsappTransport
pub mod WorkerPool
