-- ===== src/Bridge/Host.antt =====
-- What the bridge (src/dcc_mcp_obs/bridge.py) calls and does not implement itself: the clock, the
-- sleeper, the transport it is given, and functions of the Python standard library.
-- Each answer of the environment may depend on all that happened before, so that it is a function of
-- the history. A property that holds for every `Host` holds whatever OBS and the clock do.
use dcc_mcp_obs.Base.{ℕ, String, List, ◌∷◌, Option, Bool}
use dcc_mcp_obs.Value.{ℤ, Value, Fields}
use dcc_mcp_obs.Value.Json.{Loaded}
use dcc_mcp_obs.Result.{ok}
use dcc_mcp_obs.Exec.{Exec}

-- How `transport.vendor_request` ends: it returns an object, or raises an exception with this `code`
-- attribute (None if it has none).
pub data Outcome : Type 0 where
  returned : Value → Outcome
  raised : Value → Outcome

pub data Event : Type 0 where
  read_clock : ℕ → Event
  requested : String → Fields → ℕ → Outcome → Event
  slept : ℕ → Event

-- The latest event first.
abbrev pub History : Type 0
History = List Event

-- How `Path(p).expanduser().resolve()` ends: a path, OSError, ValueError (a null character), or
-- RuntimeError (no home, or a loop of links).
pub data Resolved : Type 0 where
  resolved_to : String → Resolved
  os_error bad_text no_home : Resolved

-- The standard library's functions on values.
pub record Library : Type 0 where
  -- str.lower
  pub lower : String → String
  -- json.loads
  pub loads : String → Loaded
  -- base64.b64decode(s, validate=True), `none` for binascii.Error
  pub b64decode : String → Option (List ℕ)
  -- binascii.crc32
  pub crc32 : List ℕ → ℕ
  -- float(n) of an int that is not too large, as a bit pattern
  pub float_of_int : ℤ → ℕ
  -- math.isclose(float(a), float(b), abs_tol=1e-3)
  pub is_close : Value → Value → Bool
  -- math.isclose(float(a), float(b), rel_tol=0.0, abs_tol=SOURCE_VOLUME_READBACK_TOLERANCE)
  pub volume_close : Value → Value → Bool
  -- int(s) of a text, `none` for ValueError
  pub int_of_text : String → Option ℤ
  -- str.casefold
  pub casefold : String → String
  -- hashlib.sha256(data).hexdigest()
  pub sha256 : List ℕ → String
  -- json.dumps(value, ensure_ascii=False, separators=(",", ":"))
  pub dumps : Value → String
  -- str.strip
  pub strip : String → String
  -- str.isalnum of the character with this code
  pub isalnum : ℕ → Bool
  -- str(Path(p).expanduser().resolve())
  pub resolve : String → Resolved
  -- Path(p).suffix, Path(p).is_absolute()
  pub suffix : String → String
  pub path_absolute : String → Bool
  -- Path(p).stat().st_size of a file, `none` where is_file() is False or OSError is raised
  pub file_size : String → Option ℕ
  -- PureWindowsPath(p) == PureWindowsPath(q), PurePosixPath(p) == PurePosixPath(q)
  pub same_windows_path : String → String → Bool
  pub same_posix_path : String → String → Bool
  -- PurePosixPath(p).is_absolute()
  pub posix_absolute : String → Bool
  -- the pathlib classes: is_absolute() of either flavour
  pub is_absolute : String → Bool
  -- PureWindowsPath(d).is_absolute()
  pub windows_absolute : String → Bool
  -- PureWindowsPath(p).parent == PureWindowsPath(d)
  pub windows_parent_is : String → String → Bool
  -- PurePosixPath(p).parent == PurePosixPath(d)
  pub posix_parent_is : String → String → Bool

pub record Host : Type 0 where
  pub library : Library
  pub now : History → ℕ
  pub reply : History → String → Fields → ℕ → Outcome

module _ (host : Host) where
  -- self._clock()
  unfoldable pub clock : Exec History ℕ
  clock h = let t = host.now h in (ok t, read_clock t ∷ h)

  -- self._transport.vendor_request(request_type, data, deadline=deadline)
  unfoldable pub vendor_request : String → Fields → ℕ → Exec History Outcome
  vendor_request rt payload deadline h =
      let outcome = host.reply h rt payload deadline in
      (ok outcome, requested rt payload deadline outcome ∷ h)

-- self._sleeper(duration)
unfoldable pub sleep : ℕ → Exec History (Unit {0})
sleep duration h = (ok tt, slept duration ∷ h)
