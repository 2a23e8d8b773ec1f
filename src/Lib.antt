-- ===== src/Lib.antt =====
-- luima, modelled and verified.
--
-- The library has a runtime (server/, crud/, luimaerr/, db/) and a code generator (luimagen/, with its
-- command line in cmd/luimagen/); luima.go is its root package. The files here follow those packages.
--
-- Parts
--   Prelude        what the other files share: Boolean tests, lists, integers, and Go strings as lists
--                  of code points (Prelude/Texts), where a literal is written codes "...".
--   Luimaerr       luimaerr/errors.go. Luimaerr/Errors has the error values that errors.AsType tells
--                  apart, CustomError and SQLState; Luimaerr/Context has answeredAt over what gqlgen's
--                  context says; Luimaerr/Present has PresentError. The proofs are in Luimaerr/Chain,
--                  Luimaerr/Redaction and Luimaerr/Placement.
--   Server         server/. Server/Query is the document of gqlparser; Server/Depth is maxDepth and
--                  selectionDepth of depth.go, and Server/Introspection is noIntrospection and
--                  introspects of that file. Server/Http is the part of net/http that the middleware
--                  uses; Server/RateLimit and Server/Cors are RateLimit, CORS and allowOrigin of
--                  middleware.go, the first with its contract in Server/RateLimit/Refines.
--                  Server/Mount is Config, New, Mount and fiberContext of server.go: the calls on
--                  the gqlgen server as a list, the middleware around it, and the routes. Its proofs
--                  are in Server/Mount/Order, Timeouts, Routes and Guards. Server/Run is Run, as a
--                  function from an event and a state to a state, run over any order of events.
--   Crud           crud/crud.go: Get, List, Create, Update and Delete. Crud/Absent follows what the
--                  database answers through Get, List and Delete, Crud/Outcomes through Create and
--                  Update and on through PresentError; Crud/Disclosure has the errors of all five.
--                  Crud/Keyed is the contract of the helpers over a table with a primary key: what the
--                  database answers is the record Keyed, and a map of rows says what the calls do.
--   Db             db/db.go: connector, openConnector, Connect, ConnectWith and StatementTimeout, and in
--                  Db/Redact redact. Db/Accepted has what connector accepts, Db/Closed what ConnectWith
--                  leaves open, and Db/Redact/Quoted what redact keeps out of a message.
--   Luimagen       luimagen/. Runes and Quote are the functions of Go's unicode, strings and strconv that
--                  it applies; Names is snakeCase, lowerFirst and upperFirst of gen.go; Checks is
--                  checkIdent, checkTag and scalarType; Table is Field of luimagen.go and column,
--                  modelTable and tableFromFields of gen.go; Splice is the edits that patchSource of
--                  patch.go splices into a resolver file.
--                  Syntax is the part of go/ast that patch.go reads; Stubs is findFunc, isStub,
--                  panicMessage, paramNames, panicsSomewhere and findStruct, Targets is targets,
--                  ImportBlock is splitGroups, isStdlib and renderImportBlock, Imports the rest of
--                  importEdits, and Patch is patchSource, checkComplete and
--                  inputFieldNames; Patch/Apart, Clashes, Spliced,
--                  Ranges, Total and Rewritten follow its edits to the splices, and the Quiet of Files, Schema and
--                  Generate the errors of a run. Source is sdl and modelSource of gen.go, before go/format;
--                  Graphql is the schema language that Source/Typed measures sdl against; Schema is
--                  planSDL and checkComposes; Files is what reads and writes files, as functions from a
--                  world to a world and a result: writeModel, appendSDL, patchStubs and packageClause.
--                  Generate is Options, withDefaults, rebase and Generate of luimagen.go.
--                  Sample is a disk and tools for the tests.
--   Cmd            cmd/luimagen/main.go: fields.Set, the flags and main. Cmd/RoundTrip is about Set,
--                  Cmd/Resolves about main and the generator behind it.
--   Root           luima.go: each function as the call of the package behind it; its three type aliases are
--                  the types themselves.
--   Quickstart     examples/quickstart/. Quickstart/Graph is model.User, newUser and the resolvers;
--                  Quickstart/App is main.go: the middleware, the configuration and main.
--
-- How the parts interact: a resolver calls a helper of Crud, whose error goes to PresentError, the
-- default presenter of the server. A request passes RateLimit and CORS, which wrap the handler of gqlgen,
-- and then the two operation checks, whose rejections are errors with a code in their extensions.
-- Quickstart puts the parts together as an application does: its resolvers call the helpers, its
-- middleware wraps the handler, and its main connects, runs and closes.
--
-- Bounds and fuel. selectionDepth and introspects follow spreads through the document; the model counts
-- the spreads that are open inside one another, and starts with one more than there are fragment
-- definitions. That is enough on every document, cyclic ones included, since no fragment is open twice. Go's `visiting` map is passed by value in selectionDepth, since each call leaves it as it
-- found it; the `seen` map of introspects is threaded through the walk. itoa has a round for each unit of
-- its number, which is more than its digits.
--
-- What is taken as a parameter: bun (the record Crud.Bun), the renderings of gqlparser's and
-- pgdriver's errors, what gqlgen's context answers (the record Luimaerr.Context), and what Mount works
-- with of gqlgen, Fiber and net/http (the record Server.Mount.Platform).
-- The tables of letters, digits and printing runes past ASCII, of Go's unicode package, are parameters.
-- In Db, so are url.Parse, pgdriver's OpenConnector (the record Db.Driver), and the calls on a pool
-- (the record Db.Pool). The tools of the generator are the record
-- Luimagen.Patch.Tools (go/parser, as the syntax tree that it gives, go/format and slices.SortFunc), the
-- record Luimagen.Files.Os (the file system, the run of gqlgen, the package clause of a file and the
-- functions of path/filepath) and the record Luimagen.Schema.Gqlparser. In Server/Run, what Listener and
-- ShutdownWithContext return is part of the events of a run.
-- Which operations gqlgen runs with the extensions of a server is a parameter of Server/Mount/Guards, with
-- what it relies on in the record HearsExtensions. What Run does with the configuration of the quickstart is
-- a parameter of its main, and the clock to base 36 one of its request ids. That gqlparser's
-- validation lets no fragment cycle through is the hypothesis IsAcyclic of the theorems that need it.
--
-- Not modelled: goroutines other than through the order of their critical sections or steps, the text that is
-- logged, an `As` or `Is` method of a foreign error, the difference between a nil and an empty path, and
-- in RateLimit a negative limit or window, and the rounding of Duration.Seconds.
-- In the generator an error is what its message names, without its wording. What gqlgen
-- generates for the quickstart (examples/quickstart/graph/generated), the signal that ends its main, the
-- names and the empty Validate of the two extensions, and fields.String of the command are not modelled.
-- A path is absolute as on Unix.
pub mod Prelude
pub mod Luimaerr
pub mod Server
pub mod Crud
pub mod Db
pub mod Luimagen
pub mod Cmd
pub mod Root
pub mod Quickstart
