-- ===== src/Lib.antt =====
-- The money management app: the services of its backend over one database, and the web session.
--
-- The app keeps the accounts, transactions, goals, budgets and subscriptions of many users. A handler
-- of a service reads and writes the tables through Prisma, and all of them go through one middleware,
-- which hides the rows that are deleted softly. Some handlers publish events to a broker. The
-- development models the services of backend/src as functions from the rows of their tables to an
-- answer and the rows afterwards; an answer is a `Result`, with the HTTP exceptions as its errors.
--
-- The files:
--   * Prelude: names of the library, lists, results, signed integers, sums, roundings and doubles.
--   * Orm: Client is what the services rely on of Prisma, a record of operations and laws, which all
--     definitions take as a parameter. SoftDelete is the middleware of
--     backend/src/config/prisma.service.ts, Query the calls through it, and Rows, Owned and Tombstones
--     hold the lemmas on unique ids, on the pattern "find the row of the user, then write it", and on
--     deleted rows.
--   * Broker: backend/src/config/rabbitmq.service.ts.
--   * Calendar: the dates of JavaScript that the services compute with.
--   * Transactions, Accounts, Goals, Budgets, Subscriptions, Notifications, Push, ActionCards: the
--     service of the same name under backend/src/modules. Schema has the rows and the DTOs, Service the
--     operations, Listing, Statistics, Reports, Summary, Detection, Scan (the weekly scan), Alerts and
--     Preferences further ones; the other modules are named for what they prove.
--   * Users: auth.service.ts (Auth) and user.service.ts (Service, Dashboard) of
--     backend/src/modules/user, and the check of access tokens in backend/src/config/jwt.config.ts
--     (Tokens).
--   * Ai: backend/src/modules/ai-proxy. Context is the data that is sent, Cache and Proxy the cached calls
--     of ai-proxy.service.ts, Tagging and Enrichment transaction-enrichment.service.ts, Json the reading
--     of answers. Orm.Cursor has the pages by a cursor.
--   * Sms: backend/src/modules/sms/sms.service.ts (Parsing, Service), with the tables of
--     shared/src/constants/sms.constants.ts (Keywords).
--   * Consumers: backend/src/common/consumers/rabbitmq.consumer.ts; Patterns is its detection of
--     subscriptions, Events its handlers.
--   * Weekly: backend/src/modules/weekly-summary (Totals, Service). Of the limits of the decimal columns, that
--     of savingsRate is modelled.
--   * Web: the handler of web/src/app/api/proxy (Proxy), which keeps a session in cookies in front of the
--     backend.
--   * Tests: a client on lists, and a run of each result.
--
-- An operation carries the name of the method that it models, in snake case; `findAll` and `update` of a
-- service have the name of the table added where Query has the plain name (find_all_goals,
-- update_goal). The rest of a handler after its first query is a function by clauses on the row that
-- was found (contribute_found, update_found).
--
-- Conventions: a uuid is a natural number. Amounts are in hundredths of the currency, as integers where
-- the DTOs allow a negative one. Where sums of fractions decide something that a result rests on, the
-- doubles of JavaScript are a parameter (Prelude.Doubles): a contribution to a goal, and the average
-- interval of payments. Elsewhere percentages and confidences are in hundredths and averages are compared
-- by products of integers, without the rounding of doubles. A DTO field that is null counts as left out,
-- but for the update of a transaction, where it clears the column. The order of a query is one function of
-- the rows, also where rows are tied; the result on the pages of transactions is on each query alone.
-- A time is the number of milliseconds since 1 January of the year 1, on a server that runs in UTC. The clock and
-- the new uuids are arguments. The search for the year of a day, `year_from`, has fuel for one step per
-- year that a division by 366 falls short, and two more; no result rests on it.
-- The loop of fetchTransactions has fuel for six tests of its condition, one more than the pages that
-- fill the cap, and returns `none` when the fuel runs out, which never happens (Ai.Paging).
-- The loop of the weekly scan has one step more than there are users, which is enough
-- (Subscriptions.Everyone).
--
-- Not modelled: what runs concurrently with a handler, except that a table may hold anything when it
-- starts; joined rows (`include`), the foreign keys but those of a transaction that is created or
-- updated, constant messages and log lines; columns that no service reads. The packages (Prisma,
-- RabbitMQ, SHA-256, bcrypt, JSON web tokens, the push service of Expo, the cache) and the AI service are
-- parameters, as are JavaScript's regular expressions, its rendering of numbers and dates and its case
-- conversions. The insights, the controllers, the rest of the web client and the mobile client are left
-- out.
pub mod Prelude
pub mod Budgets
pub mod Calendar
pub mod Notifications
pub mod Orm
pub mod Broker
pub mod Sms
pub mod Subscriptions
pub mod Tests
pub mod Transactions
pub mod Users
pub mod Web
pub mod Weekly
pub mod Accounts
pub mod ActionCards
pub mod Ai
pub mod Consumers
pub mod Goals
pub mod Push
