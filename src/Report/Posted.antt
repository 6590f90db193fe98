-- ===== src/Report/Posted.antt =====
-- What `report_key` of src/report_key.c posts.
use uart.Base.{
  ℤ, ℕ, ◌+◌, ◌≡◌, ◌≢◌, ap, ◌∙◌, true, Option, some, List, [], ◌∷◌, ◌++◌, arith, ◌/◌, ◌%◌,
}
use uart.Daemon.Text.{Tm, IsTime, two_lem, decimal_four_lem, digits2}
use uart.Report.Event.{
  JsonC, Config, get_duercfg, get_cur_time, sys_version, hard_version_key, device_id_key,
  mac_address, key_name_key, time_key, events, hard_version, para_object, infor_object, post_event,
  report_key,
}

-- "YYYY-MM-DD HH:MM:SS"
abbrev pub stamp : Tm → List ℕ
stamp tm =
    digits2 ((1900 + tm.tm_year) / 100)
    ++ (digits2 ((1900 + tm.tm_year) % 100)
        ++ b'-'
          ∷ (digits2 (1 + tm.tm_mon)
              ++ b'-'
                ∷ (digits2 tm.tm_mday
                    ++ b' '
                      ∷ (digits2 tm.tm_hour
                          ++ b':' ∷ (digits2 tm.tm_min ++ b':' ∷ digits2 tm.tm_sec)))))

get_cur_time-stamp : (tm : Tm) → IsTime tm → get_cur_time tm ≡ some (stamp tm)
unfolding get_cur_time
get_cur_time-stamp tm t = rw (
  decimal_four_lem (1900 + tm.tm_year) (omega arith) (omega (arith, t)),
  two_lem (1 + tm.tm_mon) (omega (arith, t)),
  two_lem tm.tm_mday (omega (arith, t)),
  two_lem tm.tm_hour (omega (arith, t)),
  two_lem tm.tm_min (omega (arith, t)),
  two_lem tm.tm_sec (omega (arith, t)),
)

-- Reading an object back, as json-c documents it.
pub record Reads (json : JsonC) : Type 0 where
  pub json_object_object_get : json.Object → (key : List ℕ) → Option json.Object
  pub get_added :
      (o v : json.Object) (key : List ℕ)
      → json_object_object_get (json.json_object_object_add o key v) key ≡ some v
  pub get_other :
      (o v : json.Object) (key other : List ℕ)
      → other ≢ key
      → json_object_object_get (json.json_object_object_add o key v) other
        ≡ json_object_object_get o other
  pub items : json.Object → List json.Object
  pub items_new : items json.json_object_new_array ≡ []
  pub items_added : (a v : json.Object) → items (json.json_object_array_add a v) ≡ items a ++ v ∷ []

-- The two keys differ in their first letter.
heads_apart : (a b : ℕ) (xs ys : List ℕ) → a ≢ b → a ∷ xs ≢ b ∷ ys
heads_apart a b xs ys ne e = absurd (ne cc)

module _ (json : JsonC) (reads : Reads json) where
  abbrev get : json.Object → List ℕ → Option json.Object
  get = reads.json_object_object_get

  abbrev text : List ℕ → Option json.Object
  text s = some (json.json_object_new_string s)

  -- What the receiver finds in the object of one event.
  pub record IsEvent (para : json.Object) (voice_ver device_id mac_addr key_name cur_time : List ℕ)
      : Type 0 where
    pub version : get para sys_version ≡ text voice_ver
    pub hardware : get para hard_version_key ≡ text hard_version
    pub device : get para device_id_key ≡ text device_id
    pub mac : get para mac_address ≡ text mac_addr
    pub key : get para key_name_key ≡ text key_name
    pub time : get para time_key ≡ text cur_time

  -- Reads over the last field that was added.
  over :
      (o v : json.Object) (k a : ℕ) (key other : List ℕ)
      → a ≢ k
      → get (json.json_object_object_add o (k ∷ key) v) (a ∷ other) ≡ get o (a ∷ other)
  over o v k a key other ne =
      reads.get_other o v (k ∷ key) (a ∷ other) (heads_apart a k other key ne)

  para_object-IsEvent :
      (voice_ver device_id mac_addr key_name cur_time : List ℕ)
      → IsEvent
          (para_object json voice_ver device_id mac_addr key_name cur_time)
          voice_ver
          device_id
          mac_addr
          key_name
          cur_time
  unfolding para_object
  para_object-IsEvent voice_ver device_id mac_addr key_name cur_time = record {
    version =
        over _ _ _ _ _ _ (omega arith)
        ∙ over _ _ _ _ _ _ (omega arith)
        ∙ over _ _ _ _ _ _ (omega arith)
        ∙ over _ _ _ _ _ _ (omega arith)
        ∙ over _ _ _ _ _ _ (omega arith)
        ∙ reads.get_added _ _ _;
    hardware =
        over _ _ _ _ _ _ (omega arith)
        ∙ over _ _ _ _ _ _ (omega arith)
        ∙ over _ _ _ _ _ _ (omega arith)
        ∙ over _ _ _ _ _ _ (omega arith)
        ∙ reads.get_added _ _ _;
    device =
        over _ _ _ _ _ _ (omega arith)
        ∙ over _ _ _ _ _ _ (omega arith)
        ∙ over _ _ _ _ _ _ (omega arith)
        ∙ reads.get_added _ _ _;
    mac = over _ _ _ _ _ _ (omega arith) ∙ over _ _ _ _ _ _ (omega arith) ∙ reads.get_added _ _ _;
    key = over _ _ _ _ _ _ (omega arith) ∙ reads.get_added _ _ _;
    time = reads.get_added _ _ _;
  }

  -- With the device's name read, a time that `localtime` gives before the year 10000, and memory for
  -- the three objects: one text is posted, that of an object whose "events" are one object with the
  -- version, the hardware's version, the device, the address, the key and the time, in 19
  -- characters; and none of the nine objects is released.
  pub report_key-IsEvent :
      (config : Config) (err : ℤ) (device_id : List ℕ) (tm : Tm)
      (voice_ver mac_addr key_name : List ℕ)
      → get_duercfg config ≡ (err, some device_id)
      → IsTime tm
      → (infor list para : json.Object) × (report_key json true true true config tm voice_ver
            mac_addr key_name
          ≡ some (record {
            posted = json.json_object_to_json_string infor ∷ [];
            made = 9;
            put = 0;
            freed_id = true;
          }))
        × (get infor events ≡ some list)
        × (reads.items list ≡ para ∷ [])
        × IsEvent para voice_ver device_id mac_addr key_name (stamp tm)
  unfolding report_key post_event infor_object
  report_key-IsEvent config err device_id tm voice_ver mac_addr key_name read t =
      let para = para_object json voice_ver device_id mac_addr key_name (stamp tm) in
      (
        infor_object json para,
        json.json_object_array_add json.json_object_new_array para,
        para,
        rw (get_cur_time-stamp tm t, read),
        reads.get_added _ _ _,
        reads.items_added json.json_object_new_array para
            ∙ ap (λ l. l ++ para ∷ []) reads.items_new,
        para_object-IsEvent voice_ver device_id mac_addr key_name (stamp tm),
      )
