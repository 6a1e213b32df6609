-- ===== src/Lib.antt =====
-- Tasktify: a gateway in front of two gRPC services, with JSON Web Tokens signed by several algorithms.
--
--   backend/gateway (Gateway): HTTP. The middleware checks the access token of a request and names its
--   user to the handlers, which call the services with that user in the metadata and translate the
--   services' gRPC statuses. Gateway/Http: the response envelope, httpStatusFromGRPCCode,
--   grpcToHTTPError, NewErrorHandler. Gateway/Middleware: AuthMiddleware.Handle. Gateway/Tasks and
--   Gateway/Accounts: the handlers. Gateway/Routes: the routes of route.go under /api/tasks;
--   Gateway/Routes/Accounts: those under /api/auth, and /api/profile. Gateway/Benchmark: the signing
--   loops of BenchmarkHandler; Gateway/Benchmark/Stats: the statistics of samples;
--   Gateway/Benchmark/Reports: the reports with them, and SignToken.
--
--   backend/todo-service (Todo): tasks. Todo/Repository and Todo/Service: TaskRepository and
--   TaskService, whose writing methods take the committed state of the database and return the new one
--   with their error. Todo/Server: AuthInterceptor and TaskServer, and one dispatcher of its calls.
--
--   backend/auth-service (Auth): users and sessions. Auth/Users: UserService. Auth/Session: SignIn,
--   RefreshToken, signTokenPair and Verify of AuthService; its child modules are proofs. Auth/Metering:
--   the timings and statistics that go with the tokens, as trailers. Auth/Server: the two gRPC servers.
--
--   backend/pkg/utils/jwtutils (Jwt): Jwt/Claims, Jwt/Header, Jwt/Util and Jwt/Multi are jwt.go;
--   Jwt/Loader is loader.go. The other modules of Jwt are proofs: Checks and Acceptance on what Parse
--   accepts, Issued and Issuance on Sign followed by Parse, Services on a Parse with other
--   configurations, Keys and KeyOrder on the map of configurations, and Loader/Methods,
--   Loader/Agreement, Loader/Loaded and Loader/Entries on the configurations that are loaded.
--
--   internal/config/app.go of backend/gateway and backend/auth-service (Bootstrap): which algorithms
--   and keys the two services load for the same settings; Bootstrap/Texts is strings.Split and
--   strings.TrimSpace. Bootstrap/Passes, Bootstrap/Login and Bootstrap/Strict are proofs on the two
--   services together.
--
--   backend/pkg/fndsa (Fndsa): the signing of FN-DSA, and sign_precomputed.go, which keeps what depends
--   only on the key. Fndsa/Tree, Sampler, Norm, Keys, Core and Signer follow the files of the package,
--   Fndsa/Method the signing methods of tokens in backend/pkg/jwt (fndsa_original.go,
--   fndsa_precomputed.go). A slice is a list, and slices of one buffer that do not overlap are lists of
--   their own. The specification of PrecomputedSigner is the signing without precomputation.
--
--   backend/pkg/jwt (Pqc): the methods of ML-DSA and SLH-DSA for tokens, mldsa.go and slhdsa.go, and
--   their keys from PEM files, mldsa_utils.go and slhdsa_utils.go.
--
--   backend/cmd/keygen (Keygen): the files of keys that it writes, and, as a proof, what the loader makes
--   of them.
--
-- Prelude holds the shared names, tests on numbers, lists, the results of fallible code (ok, error,
-- panic) with the rules of Ensures, for what holds if a chain of steps succeeds, and of Returns, for
-- chains that do succeed, and ℤ. Times is time.Time and timestamppb, with the wrap-around of int64
-- written out. Grpc has the status codes.
--
-- External holds what lies outside: github.com/google/uuid, golang.org/x/crypto/bcrypt, gorm.io/gorm
-- over one table, the rest of backend/pkg/jwt, a copy of golang-jwt, and the floating point,
-- transforms, sampler draws and codec of backend/pkg/fndsa, a copy of a signature library; and
-- github.com/cloudflare/circl. Each is a record of the calls that the program makes, and most have a
-- second record of what is documented of them, which theorems take as a hypothesis. Examples
-- instantiates each with functions: a table in memory, a unary notation for ids, libraries that know
-- a catalogue of tokens, small arithmetic for the transforms; and applies the theorems to them.
--
-- Bounds: the loop of signing in Fndsa/Core has fuel, one unit for an attempt, since it ends with
-- probability one only; which fuel is enough is in Fndsa/Attempts. All other loops run over lists or
-- count down. A benchmark has room for a given number of samples, its capacity, and panics beyond it.
-- The squared norm of a candidate is computed in 32 bits, and the memory of a signer in 64. The length
-- of a token is bounded by 64 KiB, as in the code. Go visits a map in any order: a map of
-- configurations is the list of one visit.
--
-- Not modelled: logging; the readers of /proc in the benchmarks; the construction of servers;
-- backend/keys/genkey.go; generated code; and the rest of backend/pkg/fndsa and backend/pkg/jwt. A
-- message is kept without the values that are formatted into it. A transaction sees the state at its
-- begin; what concurrent transactions do to each other is the database's matter.
pub mod Prelude
pub mod External
pub mod Fndsa
pub mod Times
pub mod Grpc
pub mod Todo
pub mod Jwt
pub mod Auth
pub mod Bootstrap
pub mod Pqc
pub mod Keygen
pub mod Gateway
pub mod Examples
