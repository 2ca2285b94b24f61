-- ===== src/Lib.antt =====
-- The verification library of MolarTracker, a desktop application that keeps accounts, trades in
-- stocks and options, and the positions that they make up.
--
-- The program is layered. User actions become commands (src/commands), which change the stores
-- (src/store) and can be undone; services (src/service) write the stores to a database through
-- repositories (src/repo) and an object-relational mapping (src/orm). From the stored transactions
-- the program groups trades by position and folds each group to a state with its profit and loss
-- (src/finance); all amounts are integers of micro units with a currency (src/common).
--
-- Sixteen parts are modelled.
--
-- Money, in Common. `Common.Quantity` is src/common/src/common/quantity.cpp: a quantity is a whole
-- number of parts, 10^8 to a unit, and mul_div, mul_quantity and div_by are mulDiv and divBy, which
-- compute in 128 bits and cast the quotient to 64, so `wrap_int64` wraps it. The comparisons of a
-- quantity with a number and of two quantities go through `double` in the code; they are the
-- record `Doubles` of operations with the laws that IEEE arithmetic gives them, and
-- `Examples.Fractions` is an instance by exact fractions. `Common.Cash` is
-- src/common/src/common/cash.cpp: amounts with a currency, where an unknown currency takes on the
-- other one's and two different ones throw. `Common.Currency` and `Common.Exception` are
-- src/common/include/common/finance.hpp and the exceptions of src/common.
--
-- Positions, in Finance.Pnl, which is src/finance/src/finance/transaction/pnl.cpp:
-- `State` has the records, `Stock` and `Option` the two `apply` functions, `Fold` foldEvents and
-- snapshot. Below each of them stand the proofs: `Stock.Quantities`, `Stock.Opening`,
-- `Stock.Reducing` and `Stock.Effect` for the branches of a stock trade, `Option.Legs`,
-- `Option.Accounts`, `Option.Distinct` and `Option.Settle` for the list of open legs and what is
-- settled, `Option.Effect`, `Option.Dispatch` and `Option.Books` for whole trades, `Fold.Totals` for
-- sequences of events. A call that may throw returns `Result`; the order in which the code throws is
-- kept.
--
-- Transactions and accounts, in Finance.Transaction and Finance.Account. `Transaction` has the types of
-- src/finance/include/finance/transaction and the fee entries, `CashEntries`, `StockEntries` and
-- `OptionEntries` are getEntries, getAmount and the data of the three kinds (cash_transaction.cpp,
-- stock_transaction.cpp, option_transaction.cpp of src/finance/src/finance/transaction), `Domain`
-- is domain_transaction.cpp with transaction_entries.cpp, `Converter` is transaction_converter.cpp
-- (toDomain as cash_to_domain, stock_to_domain and option_to_domain, and toCash, toStock, toOption),
-- `Transactions` is transactions.cpp and `Filter` transaction_filter.cpp, which uses the nodes of
-- Filter. `Converter.RoundTrip`, `Converter.InRange`, `Balance`, `Transactions.Grouping` and
-- `Transactions.Adding` have the proofs. An index past the end of a vector is the result
-- out_of_range. `Finance.Account` is account.cpp, and `Account.External` the search of accounts.cpp
-- for the external account of an account. The sets and maps of src/common/include/common/container
-- are lists, in Common.Container, and an identifier is an integer (Common.Id), invalid as
-- src/config/include/config/details/strong_id.tpp says.
--
-- Commands, in Commands, which is src/commands: `Command` is the interface ICommand over any world,
-- `Group` is commands.cpp and `UndoStack` undo_stack.cpp.
-- `Group.Running`, `Group.Append`, `UndoStack.Laws` and `UndoStack.Bounds` have the proofs. An access
-- past the end of a vector is `none`.
--
-- The base of all stores, in Store, which is base_store.tpp and base_store_notifications.tpp of
-- src/store/src/store/base: `BaseStore` has the state and one function per method. Values with an
-- identifier are the record `Identified` of getId and setId. What subscribers are told is kept as a
-- list of notifications. Writing through a pointer that an erasure invalidated is `none`. `Lookup`
-- and `Fresh` have the proofs. New identifiers count down from -2, without a bound.
--
-- The store of transactions, in `Store.TransactionStore`, which is
-- src/store/src/store/transaction_store.cpp: the four loops of its commit are `remap_account`,
-- `remap_instrument`, `remap_position` and `save_entry`, each run by `for_each` of `Store.Loop`,
-- which reads an entry of the live list when its round begins; get_transactions merges the store with
-- the database. The service of transactions is the record `TransactionService`. `Remap`,
-- `Commit`, `RenamedCash` and `Reading` have the proofs.
--
-- The store of positions, in `Store.PositionStore`, which is src/store/src/store/position_store.cpp,
-- with src/finance/src/finance/position.cpp in `Finance.Position`. The loop of its commit is `save` of
-- `Store.Saving`, which also has the lemmas that the commits of the stores share.
--
-- The store of stocks, in `Store.StockStore`, which is src/store/src/store/stock_store.cpp: the sequence of
-- identifiers for instruments is passed on, and the map from old to new ones is kept beside the
-- database. `StockStore.Tickers` and `StockStore.Commit` have the proofs.
--
-- The store of options, in `Store.OptionStore`, which is src/store/src/store/option_store.cpp with
-- src/finance/src/finance/instrument/option.cpp: `remap_underlying` is the loop that takes over the
-- identifiers that the store of stocks was given. `OptionStore.Remap` and `OptionStore.Commit` have
-- the proofs.
--
-- The store of watch lists, in `Store.WatchlistStore`, which is src/store/src/store/watchlist_store.cpp.
--
-- The loops in which these five stores save their entries are `save` of `Store.Saving`, with what
-- differs between them in a record `Writing`: how a row is created, which may throw, and what follows.
-- `walk` of `Store.Loop` is a pass over a list of entries, and `store_row` the pass that stores them, to
-- which the commits are compared; `Saving.Clean` has what holds after them, `Store.Distinct` the lemmas on stores whose entries
-- have different identifiers, and `Store.Renumbered` the map of the instruments.
--
-- Settings, in Settings, which is src/settings: `Param` is param_core.tpp of
-- src/settings/include/settings/params, `NumericParam`, `EnumParam`, `VecParam` and `MapParam` are
-- numeric_param.tpp, enum_param.tpp, numeric_vec_param.tpp and map_param.tpp, with the validator of
-- src/settings/src/settings/shortcut_settings.cpp, and `Container` is param_container_mixin.tpp with
-- settings.cpp. What becomes of the settings file and what is written for a parameter are arguments.
--
-- Versions, in `Common.Version`, which is src/common/src/common/version.cpp. Printing a number writes
-- at most 20 digits, which is enough for 64 bits.
--
-- Filters, in Filter, which is src/filter: `ExprNode` is expr_node.tpp, `Predicate` predicate.tpp.
-- Nodes are shared but never changed in place, so they are trees.
--
-- The database, in Db, which is src/db. `Engine` is what the code calls of SQLite, a record of functions
-- on the state of a connection and on the values of columns; a statement runs when it is first stepped,
-- and `Steps` is what its steps give. Code that may throw and changes the database is an `Action`: what
-- it changed before it threw stays changed. `Database` is database.cpp with statement.cpp of
-- src/db/src/db, and `Transaction` transaction.cpp: `scope` is a C++ scope that holds a transaction,
-- works, commits if the work succeeded, and destroys the transaction at its end. A statement lives in the
-- call that prepares it, so that moved and finalized statements have no model. `Transaction.Recovery`
-- states what SQLite documents of transactions, the record that the theorems on failures take: after some
-- errors SQLite ends a transaction by itself, and the state of the connection then is `Interrupted`.
-- `Transaction.Atomic` has the proofs. `Backup` is the retention of backup_manager.cpp: a backup is its
-- path with the time stamp that its name has, and the maps of weeks and months are lists that keep the
-- order of std::map. `Backup.Retention` and `Backup.Weeks` have the proofs.
--
-- The object-relational mapping, in Orm, which is src/orm: `Field` is field.tpp with binder.hpp and
-- sql_type.hpp of src/orm/include/orm, `Where` is where_clause.tpp and where_expr.cpp, `Query` is
-- query_options.cpp with join.cpp, `Model` is fields.tpp, `Texts` the texts of the statements of crud.tpp,
-- and `Crud` its operations. What a template knows of a field's type is the record `Column`; a row is the
-- list of its fields. mstd::join of a library outside the repository is the record `Joining` of
-- `Base.Text`, and the conversions of SQLite's column functions are the record `Conversions`.
-- `Where.Placeholders`, `Query.Laws`, `Model.RoundTrip`, `Crud.Bindings`, `Crud.Accepted`, `Crud.Within` and
-- `Crud.Batch` have the proofs. The messages of exceptions are left out.
--
-- The tables, in SqlModels, which is src/sql_models: `Masters` and `Movements` have the twelve row types
-- and the conditions on them, `Columns` the options that they are made of.
--
-- Migrations, in `Repo.Migration`, which is src/repo/src/repo/migration: the single and multiple
-- migrations, `Versions` the fifteen versions of migration.cpp, `Runner` migration_runner.cpp. `Neutral` and
-- `Runs` have the proofs.
--
-- Bounds. Sums and differences of micro units are integers without a bound, since an overflow of a
-- signed sum is undefined in the code; only the casts that wrap are wrapped. Every loop goes over a
-- list and is structural recursion, so that no fuel is needed.
--
-- Not modelled: the stores of accounts and profiles and the repositories, which are next; the
-- decimal texts of amounts and the percentages of a profit, which are `double`s; the sorting of
-- events and transactions, which is a call of the standard library; the concrete commands; log messages, the Qt
-- signals and the user interface; SQLite itself, opening and copying database files, the web service and
-- third-party libraries.
--
-- Base has the names that all modules share. Examples runs the model and the theorems at concrete
-- inputs.
pub mod Base
pub mod Common
pub mod Finance
pub mod Commands
pub mod Examples
pub mod Filter
pub mod Settings
pub mod Store
pub mod Db
pub mod Orm
pub mod SqlModels
pub mod Repo
