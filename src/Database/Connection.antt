-- ===== src/Database/Connection.antt =====
-- database.cpp: the one connection to the database. The connector is a library: a record of its calls,
-- where none and false are an SQLException.
use teachserver.Base.{
  ◌≡◌, Bool, true, false, Option, none, some, ◌⊎◌, inl, inr, arith, Option-cases, Bool-cases, ℕ,
  List, [], if◌then◌else◌,
}

pub record Connector : Type 1 where
  pub Connection : Type 0
  pub Statement : Type 0
  -- host, user and password; schema; the text of a statement
  pub connect : List ℕ → List ℕ → List ℕ → Option Connection
  pub set_schema : Connection → List ℕ → Bool
  pub create_statement : Connection → Option Statement
  pub prepare_statement : Connection → List ℕ → Option Statement

module _ (c : Connector) where
  open c use {Connection, Statement, connect, set_schema, create_statement, prepare_statement}

  pub record DataBase : Type 0 where
    pub host : List ℕ
    pub user_name : List ℕ
    pub password : List ℕ
    pub database : List ℕ
    pub conn : Option Connection

  abbrev new_data_base : DataBase
  new_data_base = record { host = []; user_name = []; password = []; database = []; conn = none }

  -- A connection whose schema is refused is dropped without being closed.
  unfoldable init : List ℕ → List ℕ → List ℕ → List ℕ → DataBase → Bool × DataBase
  init host user_name password database d =
      let conn : Option Connection = elim (connect host user_name password) [
        | none ↦ none
        | some opened ↦ if set_schema opened database then some opened else none
      ] in
      (
        elim conn [ none ↦ false | some opened ↦ true ],
        record {
          host = host;
          user_name = user_name;
          password = password;
          database = database;
          conn = conn;
        },
      )

  -- The one object, which the first call makes.
  unfoldable instance_of : Option DataBase → DataBase × Option DataBase
  instance_of none = (new_data_base, some new_data_base)
  instance_of (some d) = (d, some d)

  -- `createStatement`, whose exception gives a NULL, and `prepareStatement`, whose exception goes on to
  -- the caller. On a NULL connection the call is a fault.
  unfoldable get_statement : DataBase → Option (Option Statement)
  get_statement d = elim d.conn [ none ↦ none | some opened ↦ some (create_statement opened) ]

  unfoldable pre_statement : List ℕ → DataBase → Option (Option Statement)
  pre_statement sql d = elim d.conn [
    | none ↦ none
    | some opened ↦ some (prepare_statement opened sql)
  ]

  -- The set-up succeeds exactly where the server was reached and has the schema, and only then a
  -- statement can be made without a NULL being read.
  init-pre_statement :
      (host user_name password database sql : List ℕ) (d : DataBase)
      → (((init host user_name password database d).0 ≡ true)
          × ((opened : Connection) × (connect host user_name password ≡ some opened)
              × (set_schema opened database ≡ true)
              × (pre_statement sql (init host user_name password database d).1
                  ≡ some (prepare_statement opened sql))))
        ⊎ (((init host user_name password database d).0 ≡ false)
            × (pre_statement sql (init host user_name password database d).1 ≡ none))
  unfolding init pre_statement
  init-pre_statement host user_name password database sql d =
      elim (Option-cases (connect host user_name password)) [
        | inl e ↦ inr (ground (arith, e), ground (arith, e))
        | inr (opened, e) ↦ elim (Bool-cases (set_schema opened database)) [
          | inl ok ↦ inl (ground (arith, e, ok), (opened, e, ok, ground (arith, e, ok)))
          | inr bad ↦ inr (ground (arith, e, bad), ground (arith, e, bad))
        ]
      ]
