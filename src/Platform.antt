-- ===== src/Platform.antt =====
-- internal/platform: the proxy settings of the user and the entry that starts px with Windows. The
-- functions of Windows are a parameter over a state `W` of the system; a pointer to a text is a
-- number, with 0 for the null pointer.
pub mod Memory
pub mod Servers
use px_go.Prelude.{
  ℕ, ◌+◌, Bool, true, false, not, ◌||◌, List, [], ◌∷◌, ◌++◌, Option, none, some, ◌==◌,
  if◌then◌else◌,
}
use px_go.Strings.{Bytes, text, is_empty, contains, cut, split_func, trim_space, trim_suffix}

pub record ProxyInfo : Type 0 where
  pub servers : List Bytes
  pub pac : Bytes
  pub bypass : Bytes

abbrev pub Pointer : Type 0
Pointer = ℕ

-- `winhttpCurrentUserIEProxyConfig`
pub record RawConfig : Type 0 where
  pub auto_detect : ℕ
  pub auto_config_url : Pointer
  pub proxy : Pointer
  pub proxy_bypass : Pointer

-- `ieProxyConfig`
pub record IeProxyConfig : Type 0 where
  pub auto_detect : ℕ
  pub auto_config_url : Bytes
  pub proxy : Bytes
  pub proxy_bypass : Bytes

-- `get_config` is WinHttpGetIEProxyConfigForCurrentUser, `none` if it returns 0, `read` is
-- `windows.UTF16PtrToString`, and `free` is GlobalFree. `executable` is `none` for an error, `ext` is
-- `filepath.Ext`, and `exists` the success of `os.Stat`. The registry's key Run is made, opened,
-- written and closed; a key is a number.
pub record Windows (W : Type 0) : Type 0 where
  pub get_config : W → W × Option RawConfig
  pub read : W → Pointer → Bytes
  pub free : W → Pointer → W
  pub executable : Option Bytes
  pub ext : Bytes → Bytes
  pub exists : Bytes → Bool
  pub create_key : W → W × Option ℕ
  pub open_key : W → W × Option ℕ
  pub close_key : W → ℕ → W
  pub set_value : W → ℕ → Bytes → Bytes → W × Bool
  pub delete_value : W → ℕ → Bytes → W × Bool

abbrev pub behind : Option Bytes → Bytes
behind none = []
behind (some value) = value

-- The body of the loop of `parseProxyString`
unfoldable pub server_of : Bytes → Bytes
unfolding contains cut trim_space
server_of part = trim_space (if contains part (text "=") then behind (cut b'=' part).1 else part)

unfoldable pub servers_of : List Bytes → List Bytes
unfolding server_of
servers_of [] = []
servers_of (part ∷ parts) =
    let server = server_of part in
    let rest = servers_of parts in if is_empty server then rest else server ∷ rest

-- `strings.FieldsFunc` drops the empty fields.
unfoldable pub filled : List Bytes → List Bytes
filled [] = []
filled (part ∷ parts) = let rest = filled parts in if is_empty part then rest else part ∷ rest

abbrev pub is_separator : ℕ → Bool
is_separator c = c == b';' || c == b' '

unfoldable pub parse_proxy_string : Bytes → List Bytes
unfolding servers_of filled split_func
parse_proxy_string raw = servers_of (filled (split_func is_separator raw))

-- The body of `LoadProxyInfo` behind the error.
unfoldable pub proxy_info_of : IeProxyConfig → ProxyInfo
unfolding parse_proxy_string
proxy_info_of cfg = record {
  servers = if is_empty cfg.proxy then [] else parse_proxy_string cfg.proxy;
  pac = cfg.auto_config_url;
  bypass = cfg.proxy_bypass;
}

-- `strings.TrimSuffix(exe, filepath.Ext(exe)) + "w" + filepath.Ext(exe)`
abbrev windowless : Bytes → Bytes → Bytes
windowless exe ext = trim_suffix exe ext ++ (text "w" ++ ext)

abbrev command_for : Bytes → Bytes → Bytes
command_for exe config_path =
    text "\"" ++ (exe ++ (text "\" --config=\"" ++ (config_path ++ text "\"")))

module _ {W : Type 0} where
  unfoldable pub ptr_to_string : Windows W → W → Pointer → Bytes
  ptr_to_string api w ptr = if ptr == 0 then [] else api.read w ptr

  unfoldable pub free_if_needed : Windows W → W → Pointer → W
  free_if_needed api w ptr = if ptr == 0 then w else api.free w ptr

  unfoldable pub read_config : Windows W → W × Option RawConfig → W × Option IeProxyConfig
  unfolding ptr_to_string free_if_needed
  read_config api (w, none) = (w, none)
  read_config api (w, some raw) = (
    free_if_needed api (free_if_needed api (free_if_needed api w raw.auto_config_url) raw.proxy)
        raw.proxy_bypass,
    some (record {
      auto_detect = raw.auto_detect;
      auto_config_url = ptr_to_string api w raw.auto_config_url;
      proxy = ptr_to_string api w raw.proxy;
      proxy_bypass = ptr_to_string api w raw.proxy_bypass;
    }),
  )

  -- `winHTTPGetIEProxyConfigForCurrentUser`
  unfoldable pub ie_proxy_config : Windows W → W → W × Option IeProxyConfig
  unfolding read_config
  ie_proxy_config api w = read_config api (api.get_config w)

  -- `LoadProxyInfo`
  unfoldable pub load_proxy_info : Windows W → W → W × Option ProxyInfo
  unfolding ie_proxy_config proxy_info_of
  load_proxy_info api w =
      let (v, cfg) = ie_proxy_config api w in
      (v, elim cfg [ none ↦ none | some c ↦ some (proxy_info_of c) ])

  -- A change of the value "Px" of a key that was opened, and the closing of the key; the flag says that
  -- there is no error.
  abbrev pub with_key : Windows W → W × Option ℕ → (W → ℕ → W × Bool) → W × Bool
  with_key api (w, none) change = (w, false)
  with_key api (w, some key) change = let (v, ok) = change w key in (api.close_key v key, ok)

  unfoldable pub install_as : Windows W → W → Option Bytes → Bytes → W × Bool
  unfolding trim_suffix
  install_as api w none config_path = (w, false)
  install_as api w (some exe) config_path =
      let other = windowless exe (api.ext exe) in
      let command = command_for (if api.exists other then other else exe) config_path in
      with_key api (api.create_key w) (λ v key. api.set_value v key (text "Px") command)

  -- `Install`
  unfoldable pub install : Windows W → W → Bytes → W × Bool
  unfolding install_as
  install api w config_path = install_as api w api.executable config_path

  -- `Uninstall`
  unfoldable pub uninstall : Windows W → W → W × Bool
  uninstall api w = with_key api (api.open_key w) (λ v key. api.delete_value v key (text "Px"))
