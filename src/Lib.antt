-- ===== src/Lib.antt =====
-- Dairycart, an e-commerce API in Go: its data, its HTTP handlers over a store, its PostgreSQL store,
-- its image storer, its configuration, and its client.
--
-- A request reaches a handler of api/v1, which decodes its body, reads and writes rows through the
-- interface `Storer` of storage/v1/database, some of it in a transaction, answers with a status and
-- JSON, and may start goroutines that call webhooks. storage/v1/database/postgres implements the
-- interface, and client/v1 sends the requests. The server is put together from a configuration, which
-- chooses the store and the image storer, and starts both. The files:
--
-- - Prelude: shared names, Boolean tests, lists and texts over the native numbers.
-- - Models: the structs of models/v1. A time is the number of seconds since Go's zero time, a float64
--   its bit pattern, a nilable time an Option.
-- - Storage: `Storer` of storage/v1/database/main.go as a record over any type D of database states. A
--   query maps a state to a value and an error, a command to a new state too. Storage.Steps has the
--   calls as a step relation and what a sequence of them reaches.
-- - Http: what a handler reads and writes. `World` holds the committed state, the working copy of the
--   open transaction, the status, the bodies, the started webhook calls and the saved session; `Handler`
--   is the monad of functions on it that may return early or panic.
-- - Api.Respond, Api.Numbers, Api.Filter, Api.Inputs: api/v1/helpers.go, and the conversions of
--   payloads.
-- - Api.Routes: the table of routes of `SetupAPIRouter` in api/v1/routes.go.
-- - Api.Discounts, Api.Webhooks, Api.Options, Api.OptionValues, Api.Roots, Api.Products, Api.Users: one
--   function for each handler of the file of api/v1 of that name, `buildDiscountUpdateHandler` being
--   `discount_update`, and so on. Api.Webhooks.Executor is `CallWebhook` of webhook_executor.go.
-- - Api.Variants: `buildProductsFromOptions` of api/v1/product_options.go.
-- - Api.Rules, Api.Transactions, Api.Merging: how to follow a handler to its end, what stays inside a
--   transaction, and what mergo does with ids.
-- - Postgres: storage/v1/database/postgres. Postgres.Statements has a table, its rows in order of
--   creation, and the shapes of SQL statement; then one file for each file of statements there
--   (Discounts, Webhooks, ExecutionLogs, Users, LoginAttempts, ResetTokens, Options, OptionValues,
--   Images, ImageBridges, VariantBridges, Roots, Products), each method of the Go type `postgres` being
--   the function of its name. Postgres.Database puts the tables together and `postgres` makes a `Storer`
--   of them. Postgres.Refinement compares a table with a finite map of the rows that are not archived.
--   Postgres.Filter is `applyQueryFilterToQueryBuilder` of main.go, and Postgres.Migrate is migrate.go.
-- - Images: storage/v1/images/main.go, and Images.Local the storer of storage/v1/images/local/main.go,
--   whose `Init` and `StoreImages` work on a disk.
-- - Config: api/v1/config.go. Config.Loading loads plugins, Config.Building makes the parts of the
--   server, Config.Starting is `InitializeServerComponents`, which calls `Init` of Images.Local and
--   `Migrate` of Postgres.Migrate.
-- - Client: client/v1/client.go and helpers.go; Client.Calls the calls of client/v1, and Client.Paths
--   how their paths meet the routes.
-- - Tests: concrete rows, a small store and a small database, at which the theorems are applied.
--
-- The loop over the index vector of `buildProductsFromOptions` runs on fuel, one more than the product
-- of the numbers of values, which is enough. The loop that waits for the database runs on fuel, the
-- number of attempts that the code allows, and the digits of n are found on fuel n + 1. Every other loop
-- is structural.
--
-- Parameters: bcrypt, the cookie store, mail.ParseAddress, mergo, fatih/structs, the image decoders, the
-- disk and the resizing of images, net/url, viper, Go plugins, sql.Open, the HTTP client, squirrel and
-- what PostgreSQL answers to its texts, in what order rows come without ORDER BY, and what a numeric
-- column holds of a float64 (`Queries`), the constraints of the schema (`violated`), the errors of
-- beginning and of committing a transaction, mattes/migrate, encoding/json in the client, and what Go
-- leaves to the platform in converting floats. A request body is what the JSON decoder returned. A
-- handler that fails to commit leaves the committed state as it was. A statement that names a column its
-- table does not have fails. An id that was drawn by an INSERT which failed or was rolled back is drawn
-- again.
--
-- Not modelled: logging, the client's login and its escaping of URLs, the commands, the mocks, and
-- bindata.go, which is generated from the migrations. A handler runs alone: the goroutines of the
-- webhooks are listed, not interleaved.
pub mod Prelude
pub mod Models
pub mod Storage
pub mod Http
pub mod Api
pub mod Postgres
pub mod Client
pub mod Config
pub mod Images
pub mod Tests
