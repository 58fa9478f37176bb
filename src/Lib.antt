-- ===== src/Lib.antt =====
-- The client of Epic-KFC, an end-to-end encrypted messenger for the console (client/src).
--
-- Parts and how they interact. main.cpp reads the command line (Startup), makes an event bus, a
-- local store, gateways, services, a controller and a router, and hands each line of input to the
-- router. The router (Router) keeps the mode of input: a line is a command, a password, or a line
-- of a message. A command is parsed (Parser, Commands) and goes to the controller (Controller),
-- which calls a service (Services) and announces it on the bus. A service calls a gateway
-- (Gateways) and goes on in a callback when the answer comes. Signals of the bus (Events, Bus) come
-- back to the router, at once or later. The services keep keys, pins and messages in the local
-- store (Store), whose methods (Methods) write a file of JSON (Json, Files) in which secrets are
-- encrypted (Secrets). The anchor of a message on the chain is compared with a digest that the
-- client computes (EthereumHash, Keccak).
--
-- Which file models what:
-- - Base and its children: numbers, texts as sequences of UTF-16 code units, lists, loops.
-- - Models: client/src/domain/Models.h and client/src/support/Result.h. Texts: the texts with
--   values in them of client/src/support/ClientConstants.h.
-- - Platform: what is called of Qt that rests on Unicode's tables or on the system; Host: the
--   cipher, base64, times as text, and the file system. Both are records of functions with records
--   of laws, which say what their documentation says.
-- - Commands: client/src/domain/Models.cpp. Parser: client/src/app/SlashCommandParser.cpp. Its loop
--   is `scan` over `token_step`, on the four variables of tokenizeArguments.
-- - Startup: client/src/app/StartupConfig.cpp. The loop over the arguments is structural.
-- - Events: client/src/app/EventBus.h. Bus: the constructors of CommandRouter.cpp and
--   ClientController.cpp, that is, what each signal does. Controller: ClientController.cpp. Input
--   and Router: CommandRouter.cpp, a function for each handler, from a client to a client, where a
--   client is the router, the state of the services, and the trace of what was emitted and called.
-- - Keyed, Store and its children: client/src/storage/JsonLocalStore.cpp in memory, the tables, the
--   messages, the conversations and the JSON forms. Secrets: protectSecrets, unprotectSecrets and
--   the functions below them. Files: load, save and the paths. Their Hidden have a store without
--   its secrets and a cipher that is not given its text. Methods: the public methods, each a
--   change in memory followed by save, on a machine of the store, the files and a counter of
--   random draws.
-- - Trust: the part of KeyService in client/src/services/Services.cpp that pins keys, a step for each
--   answer of a gateway.
-- - Services: client/src/services/Services.h, the state `World` of the three services, `Request` for
--   the calls of the gateways and `Pending` for the callbacks with what they capture. Its children
--   have the functions of Services.cpp: Session (SessionService), Keys (KeyService), Lists, Sending,
--   Reading, Pages and Anchors (MessageService), Secrecy (what decrypts and names files). A function
--   is a `Step`, from a world to a world and what it emits and asks. Runs gives each callback its
--   step and each call of the controller its service; Sealed has the runs in which answers come in
--   any order; Prompt puts the router and the services together, with answers before the next line,
--   and counts the steps so that each may have its own environment and answers. Sync,
--   Accounts, Formats, Runs/Finish and Sealed/Runs are theorems.
-- - Gateways: client/src/gateways/Gateways.cpp, the mock gateways and their state, those of messages in
--   Messages; Mock and Mailbox are theorems on them.
-- - Keccak and EthereumHash: client/src/support/EthereumHash.cpp, with words of 64 bits as numbers
--   whose wrap is written out. Fips has the permutation of FIPS 202 as the standard defines it,
--   Padding its pad10*1; Kept is on the digest of a message in the store.
-- - Examples: concrete values of the parameters, and the theorems applied to them.
--
-- Choices. Every loop is a recursion on its list or a count, but for the three loops of `keccak256`,
-- which are bounded: the padding by 137 rounds, as a block has 136 bytes, the absorbing by one round
-- more than there are bytes, and the squeezing by 33 lanes, as a digest has 32 bytes; they are left
-- by their tests before that. Prompt follows an operation of the services through three answers,
-- which Runs/Finish shows to be enough for each. An `int` is a ℤ of the model and is not bounded, since the modelled
-- code only stores, compares and tests it, and clamps the page; the counts of a summary and of pages
-- are numbers. A signal that a service emits while the router calls it is delivered when its call
-- returns, with the state that the service then has; later answers are signals of their own. A JSON
-- text is the object that it prints. `std::sort` leaves the order of equal times open, the model
-- keeps the order in which they came. The time, the crypto provider and the file system are given to
-- each step anew, so that they may change between steps. The text of an error is a constructor with
-- the values that are put into it.
--
-- Not modelled: the gateways over HTTP, whose requests and answers are the calls and replies of the
-- services; the crypto providers, which are a record of functions; the console, main.cpp, which puts
-- the parts together; the server, the blockchain and the prototype in cryptography, which are other
-- programs.
pub mod Base
pub mod Models
pub mod Platform
pub mod Commands
pub mod Parser
pub mod Keyed
pub mod Store
pub mod Json
pub mod Keccak
pub mod EthereumHash
pub mod Host
pub mod Secrets
pub mod Files
pub mod Startup
pub mod Methods
pub mod Events
pub mod Texts
pub mod Trust
pub mod Services
pub mod Gateways
pub mod Bus
pub mod Controller
pub mod Input
pub mod Router
pub mod Examples
