-- ===== src/Shared/Database.antt =====
-- shared/database.go: the interface `Database`, `Connect` and the registry of drivers.
-- A method returns what Go returns: a value and an error, both always there.
pub mod Offsets
pub mod Doubles
use ttobserver_v.Base.{
  ℕ, String, Bool, true, false, [], Option, none, some, List, Dict, lookup, insert, M, pure,
  if◌then◌else◌, ◌==◌, string_eq,
}
use ttobserver_v.Base.Int.{ℤ, negsuc}
use ttobserver_v.Shared.Errors.{Fault, required_parameters, driver_not_registered}

abbrev pub invalid_db_id : ℤ
invalid_db_id = negsuc 0

abbrev pub Bytes : Type 0
Bytes = List ℕ

abbrev pub Meta : Type 0
Meta = Dict String String

pub record DbTorrent : Type 0 where
  pub id : ℤ
  pub name : String
  pub content : Bytes
  pub image : Bytes

-- `is_nil` is true of a nil pointer of a driver's type: it is a database that is not nil, whose
-- methods panic.
pub record Database (W : Type 0) : Type 0 where
  pub is_nil : Bool
  pub add_admin : ℤ → M W Fault
  pub add_chat : ℤ → M W Fault
  pub add_torrent_image : ℤ → Bytes → M W Fault
  pub add_torrent_meta : ℤ → Meta → M W Fault
  pub add_torrent : String → Bytes → List String → M W (ℤ × Fault)
  pub check_torrent : ℤ → M W (Bool × Fault)
  pub close : M W (Unit {0})
  pub del_admin : ℤ → M W Fault
  pub del_chat : ℤ → M W Fault
  pub get_admin_exist : ℤ → M W (Bool × Fault)
  pub get_admins : M W (List ℤ × Fault)
  pub get_chat_exist : ℤ → M W (Bool × Fault)
  pub get_chats : M W (List ℤ × Fault)
  pub get_crawl_offset : M W (ℕ × Fault)
  pub get_torrent_files : ℤ → M W (List String × Fault)
  pub get_torrent_image : ℤ → M W (Bytes × Fault)
  pub get_torrent_meta : ℤ → M W (Meta × Fault)
  pub get_torrent : String → M W (ℤ × Fault)
  pub update_crawl_offset : ℕ → M W Fault
  pub m_get_torrents : M W (List DbTorrent × Fault)
  pub m_put_torrent : DbTorrent → List String → M W Fault

-- A nil pointer of a driver's type. Such a database comes only beside an error, after which the
-- program calls no method of it but `Close`, where `is_nil` is tested; so what is written for the
-- methods here is never run.
unfoldable pub nil_database : {W : Type 0} → Database W
nil_database = record {
  is_nil = true;
  add_admin = λ id. pure none;
  add_chat = λ id. pure none;
  add_torrent_image = λ id image. pure none;
  add_torrent_meta = λ id m. pure none;
  add_torrent = λ name content files. pure (invalid_db_id, none);
  check_torrent = λ id. pure (false, none);
  close = pure tt;
  del_admin = λ id. pure none;
  del_chat = λ id. pure none;
  get_admin_exist = λ id. pure (false, none);
  get_admins = pure ([], none);
  get_chat_exist = λ id. pure (false, none);
  get_chats = pure ([], none);
  get_crawl_offset = pure (0, none);
  get_torrent_files = λ id. pure ([], none);
  get_torrent_image = λ id. pure ([], none);
  get_torrent_meta = λ id. pure ([], none);
  get_torrent = λ name. pure (invalid_db_id, none);
  update_crawl_offset = λ n. pure none;
  m_get_torrents = pure ([], none);
  m_put_torrent = λ t fs. pure none;
}

abbrev pub is_nil_pointer : {W : Type 0} → Option (Database W) → Bool
is_nil_pointer none = false
is_nil_pointer (some db) = db.is_nil

-- What a call of `RegisterFactory` does: it panics, or it has a new table.
pub data Registered (F : Type 0) : Type 0 where
  panics : Registered F
  registered : Dict String F → Registered F

-- A nil factory is `none`.
unfoldable pub register_factory : {F : Type 0} → String → Option F → Dict String F → Registered F
register_factory name n factories =
    if name == ""
    then panics
    else elim n [ none ↦ panics | some f ↦ registered (insert name f factories) ]

-- A driver's factory: `P` is the type of parameter values, `D` that of databases.
abbrev pub DbFactory : Type 0 → Type 0 → Type 0 → Type 0
DbFactory W P D = Dict String P → M W (Option D × Fault)

module _ {W P D : Type 0} where
  unfoldable pub run_factory : Option (DbFactory W P D) → Dict String P → M W (Option D × Fault)
  run_factory none params = pure (none, some driver_not_registered)
  run_factory (some fac) params = fac params

  -- A nil map of parameters is `none`.
  unfoldable pub connect :
      Dict String (DbFactory W P D) → String → Option (Dict String P) → M W (Option D × Fault)
  unfolding run_factory
  connect factories driver none = pure (none, some required_parameters)
  connect factories driver (some params) =
      if driver == ""
      then pure (none, some required_parameters)
      else run_factory (lookup driver factories) params
