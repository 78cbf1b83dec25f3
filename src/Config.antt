-- ===== src/Config.antt =====
-- Config.cpp: the settings that the Lua script config.lua sets. The Lua library is a parameter.
use teachserver.Base.{ℕ, Bool, Option, some, List, ◌>>=◌, if◌then◌else◌}

-- The global variables that are read.
pub data Global : Type 0 where
  db_host db_username db_password db_database server_ip server_port school_id game_count : Global

-- Whether the script was loaded and whether it ran, and what its globals are as a text, where NULL is
-- none, and as an int.
pub record Lua : Type 0 where
  pub loads : Bool
  pub runs : Bool
  pub to_string : Global → Option (List ℕ)
  pub to_integer : Global → ℕ

pub record Config : Type 0 where
  pub host : List ℕ
  pub username : List ℕ
  pub password : List ℕ
  pub database : List ℕ
  pub ip : List ℕ
  pub port : ℕ
  pub school : ℕ
  pub games : ℕ

-- Config::readconfig. A text that is NULL is a fault where it becomes a string.
unfoldable pub readconfig : Lua → Config → Option Config
readconfig lua c =
    if lua.loads
    then (if lua.runs
        then (do
          h ← lua.to_string db_host
          u ← lua.to_string db_username
          p ← lua.to_string db_password
          d ← lua.to_string db_database
          i ← lua.to_string server_ip
          some (record {
            host = h;
            username = u;
            password = p;
            database = d;
            ip = i;
            port = lua.to_integer server_port;
            school = lua.to_integer school_id;
            games = lua.to_integer game_count;
          }))
        else some c)
    else some c
