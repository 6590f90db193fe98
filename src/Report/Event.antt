-- ===== src/Report/Event.antt =====
-- The report of a key, `report_key` of src/report_key.c, with `get_duercfg` and `get_cur_time`. The
-- library json-c is a parameter: its objects and what the code calls on them.
use uart.Base.{
  ℕ, ◌+◌, Bool, true, false, not, Option, none, some, List, [], ◌∷◌, ◌++◌, length, ltb,
  if◌then◌else◌, ◌>>=◌, ℤ, negsuc, is_negative,
}
use uart.Daemon.Text.{Tm, decimal, two}

-- The calls of json-c. `json_object_new_string` is given a text, not a null pointer.
pub record JsonC : Type 1 where
  pub Object : Type 0
  pub json_object_new_object : Object
  pub json_object_new_array : Object
  pub json_object_new_string : List ℕ → Object
  pub json_object_object_add : Object → (key : List ℕ) → Object → Object
  pub json_object_array_add : Object → Object → Object
  pub json_object_to_json_string : Object → List ℕ

-- What the calls of `get_duercfg` bring.
pub record Config : Type 0 where
  -- what `fp_read_file` returns
  pub read_file : ℤ
  -- the file is JSON, and `json_object_object_get` gives no error
  pub parsed : Bool
  pub found : Bool
  -- the string of that object, `none` for null
  pub attr : Option (List ℕ)

-- The end of `get_duercfg`; `err` is what `fp_read_file` returned. `strdup` is taken to succeed.
abbrev pub copy_attr : (err : ℤ) → Option (List ℕ) → ℤ × Option (List ℕ)
copy_attr err none = (negsuc 3, none)
copy_attr err (some attr) = (err, some attr)

-- The call's result, and `*device_id`, null where it is not written.
unfoldable pub get_duercfg : Config → ℤ × Option (List ℕ)
get_duercfg c =
    if is_negative c.read_file
    then (negsuc 0, none)
    else if not c.parsed
    then (negsuc 1, none)
    else if not c.found
    then (negsuc 2, none)
    else copy_attr c.read_file c.attr

-- `cur_time`, of 32 bytes; `none` where the text is longer.
unfoldable pub get_cur_time : Tm → Option (List ℕ)
get_cur_time tm =
    let text =
      decimal (1900 + tm.tm_year)
      ++ b'-'
        ∷ (two (1 + tm.tm_mon)
            ++ b'-'
              ∷ (two tm.tm_mday
                  ++ b' ' ∷ (two tm.tm_hour ++ b':' ∷ (two tm.tm_min ++ b':' ∷ two tm.tm_sec)))) in
    if ltb (length text) 32 then some text else none

-- What a call leaves: the texts that it posts, the numbers of the objects that it made and that it
-- released, and whether the copy of the device's name is freed.
pub record Reported : Type 0 where
  pub posted : List (List ℕ)
  pub made : ℕ
  pub put : ℕ
  pub freed_id : Bool

-- "sysVersion", "hardVersion", "deviceId", "macAddress", "keyName", "time" and "events"
abbrev pub sys_version : List ℕ
sys_version = b's' ∷ b'y' ∷ b's' ∷ b'V' ∷ b'e' ∷ b'r' ∷ b's' ∷ b'i' ∷ b'o' ∷ b'n' ∷ []

abbrev pub hard_version_key : List ℕ
hard_version_key = b'h' ∷ b'a' ∷ b'r' ∷ b'd' ∷ b'V' ∷ b'e' ∷ b'r' ∷ b's' ∷ b'i' ∷ b'o' ∷ b'n' ∷ []

abbrev pub device_id_key : List ℕ
device_id_key = b'd' ∷ b'e' ∷ b'v' ∷ b'i' ∷ b'c' ∷ b'e' ∷ b'I' ∷ b'd' ∷ []

abbrev pub mac_address : List ℕ
mac_address = b'm' ∷ b'a' ∷ b'c' ∷ b'A' ∷ b'd' ∷ b'd' ∷ b'r' ∷ b'e' ∷ b's' ∷ b's' ∷ []

abbrev pub key_name_key : List ℕ
key_name_key = b'k' ∷ b'e' ∷ b'y' ∷ b'N' ∷ b'a' ∷ b'm' ∷ b'e' ∷ []

abbrev pub time_key : List ℕ
time_key = b't' ∷ b'i' ∷ b'm' ∷ b'e' ∷ []

abbrev pub events : List ℕ
events = b'e' ∷ b'v' ∷ b'e' ∷ b'n' ∷ b't' ∷ b's' ∷ []

-- "F-8198v1.2"
abbrev pub hard_version : List ℕ
hard_version = b'F' ∷ b'-' ∷ b'8' ∷ b'1' ∷ b'9' ∷ b'8' ∷ b'v' ∷ b'1' ∷ b'.' ∷ b'2' ∷ []

module _ (json : JsonC) where
  -- `para_object`, with its six strings.
  unfoldable pub para_object :
      (voice_ver device_id mac_addr key_name cur_time : List ℕ) → json.Object
  para_object voice_ver device_id mac_addr key_name cur_time =
      let new_string = json.json_object_new_string in
      let add = json.json_object_object_add in
      let p1 = add json.json_object_new_object sys_version (new_string voice_ver) in
      let p2 = add p1 hard_version_key (new_string hard_version) in
      let p3 = add p2 device_id_key (new_string device_id) in
      let p4 = add p3 mac_address (new_string mac_addr) in
      let p5 = add p4 key_name_key (new_string key_name) in add p5 time_key (new_string cur_time)

  -- `infor_object` around it.
  unfoldable pub infor_object : json.Object → json.Object
  infor_object para =
      json.json_object_object_add json.json_object_new_object events
        (json.json_object_array_add json.json_object_new_array para)

  -- The part behind the three objects. For a null `device_id` it is a fault.
  unfoldable pub post_event :
      (voice_ver mac_addr key_name cur_time : List ℕ)
      → (device_id : Option (List ℕ)) → Option Reported
  post_event voice_ver mac_addr key_name cur_time none = none
  post_event voice_ver mac_addr key_name cur_time (some device_id) = some (record {
    posted =
        json.json_object_to_json_string
          (infor_object (para_object voice_ver device_id mac_addr key_name cur_time))
        ∷ [];
    made = 9;
    put = 0;
    freed_id = true;
  })

  -- The flags say whether the three objects can be made; `voice_ver` and `mac_addr` are what
  -- `cdb_get` gives. The strings are taken to be made.
  unfoldable pub report_key :
      (got_infor got_para got_array : Bool)
      → Config
      → Tm
      → (voice_ver mac_addr key_name : List ℕ) → Option Reported
  report_key got_infor got_para got_array config tm voice_ver mac_addr key_name = do
    cur_time ← get_cur_time tm
    if not got_infor
        then some (record { posted = []; made = 0; put = 0; freed_id = false })
        else if not got_para
        then some (record { posted = []; made = 1; put = 1; freed_id = false })
        else if not got_array
        then some (record { posted = []; made = 2; put = 2; freed_id = false })
        else post_event voice_ver mac_addr key_name cur_time (get_duercfg config).1
