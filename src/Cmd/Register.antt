-- ===== src/Cmd/Register.antt =====
-- PASS, NICK and USER (src/Cmd/CmdPass.cpp, CmdNick.cpp, CmdUser.cpp), the welcome of
-- src/Cmd/Cmd.cpp, and the small commands CAP, PING and QUIT.
use ft_irc_refactor.Base.{
  ℕ, Bool, true, not, ◌&&◌, ◌||◌, List, [], ◌∷◌, ◌++◌, Option, none, some, Str, codes, str_eq, ◌==◌,
  leb, length, all, is_empty, is_some, first, drop, if◌then◌else◌, is_alnum, is_cntrl, tokens, map,
}
use ft_irc_refactor.Client.{
  Client, set_nickname, set_username, set_realname, set_servername, update_last_ping_sent,
  set_pass_status, set_nick_status, set_user_status, set_registered_status, set_prefix,
}
use ft_irc_refactor.Channel.{
  Ptr, Channel, is_participant, is_operator, add_participant, remove_participant, add_operator,
  remove_operator,
}
use ft_irc_refactor.Server.State.{
  Env, Server, Action, pure, get, modify, or_undefined, require, when, for_each, update_client,
  ◌>>=◌, ◌>>◌,
}
use ft_irc_refactor.Server.Net.{
  server_name, make_msg, cast_msg, broadcast_all, get_client_by_nickname, update_clients,
  update_nick_name_client_map, add_client_by_nickname, mark_client_for_removal, get_client,
}
use ft_irc_refactor.Cmd.Context.{Cmd, self, demand, reply}
use ft_irc_refactor.Reply

abbrev pub nick_max_len : ℕ
nick_max_len = 20

abbrev pub username_max_len : ℕ
username_max_len = 100

abbrev pub realname_max_len : ℕ
realname_max_len = 100

unfoldable pub cmd_cap : Env → Cmd → Action (Unit {0})
cmd_cap env c = do me ← self c; cast_msg env c.client_fd (make_msg me.prefix (codes "CAP * LS :"))

unfoldable pub cmd_pass : Cmd → Action (Unit {0})
cmd_pass c = do
  me ← self c
  demand (not (is_empty c.cmd_params)) (Reply.err_needmoreparams me.nickname (codes "PASS"))
  demand (not me.pass) (Reply.err_alreadyregistred me.nickname)
  s ← get
  demand (str_eq c.cmd_params s.password) (Reply.err_passwdmismatch me.nickname)
  p ← or_undefined c.client
  update_client p (set_pass_status true)

unfoldable pub check_nick : Cmd → Str → Action (Unit {0})
check_nick c str = do
  me ← self c
  let tmp = if is_empty me.nickname then codes "guest" else me.nickname
  require (not (is_empty str)) (Reply.err_nonicknamegiven tmp)
  demand (leb (length str) nick_max_len) (Reply.err_erroneusnickname tmp)
  demand (all is_alnum str) (Reply.err_erroneusnickname tmp)
  found ← get_client_by_nickname str
  demand (not (is_some found)) (Reply.err_nicknameinuse tmp)

-- One channel, when a participant has changed its nickname.
unfoldable pub rename_in : (old_nick new_nick : Str) → Ptr → Channel → Channel
unfolding add_participant remove_participant add_operator remove_operator
rename_in old_nick new_nick p ch =
    if is_participant old_nick ch
    then (let moved = add_participant new_nick p (remove_participant old_nick ch) in
        if is_operator old_nick moved
        then add_operator new_nick p (remove_operator old_nick moved)
        else moved)
    else ch

unfoldable pub rename_in_channels : (old_nick new_nick : Str) → Ptr → Server → Server
unfolding rename_in
rename_in_channels old_nick new_nick p s = record s {
  channels = map (λ entry. (entry.0, rename_in old_nick new_nick p entry.1)) s.channels;
}

-- The branch of cmdNick for a registered client.
unfoldable pub rename_registered :
    Env → Ptr → (fd : ℕ) → (old_nick new_nick : Str) → Action (Unit {0})
rename_registered env p fd old_nick new_nick = do
  update_client p set_prefix
  modify (update_clients p fd)
  modify (update_nick_name_client_map old_nick new_nick p)
  modify (rename_in_channels old_nick new_nick p)
  broadcast_all env (make_msg (codes ":" ++ old_nick) (Reply.rpl_nick new_nick))

-- What cmdNick does once the nickname is found good.
unfoldable pub apply_nick : Env → Cmd → (me : Client) → Ptr → Action (Unit {0})
apply_nick env c me p = do
  update_client p (set_nickname c.cmd_params)
  if me.registered
      then rename_registered env p me.fd me.nickname c.cmd_params
      else modify (add_client_by_nickname c.cmd_params p)
  update_client p (set_nick_status true)

unfoldable pub cmd_nick : Env → Cmd → Action (Unit {0})
cmd_nick env c = do
  me ← self c
  demand me.pass (Reply.err_notregistered me.nickname)
  check_nick c c.cmd_params
  p ← or_undefined c.client
  apply_nick env c me p

-- The MOTD file: its lines, if it opens.
unfoldable pub print_motd : Env → Cmd → (nick : Str) → Option (List Str) → Action (Unit {0})
print_motd env c nick none = pure tt
print_motd env c nick (some lines) = for_each lines (λ line. reply env c (Reply.rpl_motd nick line))

unfoldable pub print_welcome : Env → Cmd → Action (Unit {0})
print_welcome env c = do
  me ← self c
  s ← get
  reply env c (Reply.rpl_welcome me.nickname me.servername)
  reply env c (Reply.rpl_yourhost me.nickname me.servername)
  reply env c (Reply.rpl_created me.nickname (env.format_date s.start_time))
  reply env c (Reply.rpl_myinfo me.nickname)
  reply env c (Reply.rpl_motdstart me.nickname)
  print_motd env c me.nickname env.motd
  reply env c (Reply.rpl_endofmotd me.nickname)

abbrev is_username_byte : ℕ → Bool
is_username_byte b = not (is_cntrl b || b == 32 || b == b'@')

unfoldable pub check_username : Cmd → Str → Action (Unit {0})
check_username c str = do
  me ← self c
  demand (not (is_empty str && is_empty me.nickname)) Reply.err_errusercmd
  demand (leb (length str) username_max_len) Reply.err_errusercmd
  demand (all is_username_byte str) Reply.err_errusercmd

unfoldable pub check_realname : Cmd → Str → Action (Unit {0})
check_realname c str = do
  me ← self c
  demand (not (is_empty str && is_empty me.nickname)) Reply.err_errusercmd
  demand (leb (length str) realname_max_len) Reply.err_errusercmd
  demand (all (λ b. not (is_cntrl b)) str) Reply.err_errusercmd

-- `realname += " " + token` for the tokens that are left.
unfoldable pub join_realname : Str → List Str → Str
join_realname realname [] = realname
join_realname realname (t ∷ ts) = join_realname (realname ++ codes " " ++ t) ts

-- The fourth token and all that follow it: the real name, behind a ':'.
unfoldable pub user_realname : Cmd → Ptr → (token : Str) → (rest : List Str) → Action (Unit {0})
user_realname c p token rest = do
  me ← self c
  demand (first token == b':') (Reply.err_needmoreparams me.nickname (codes "USER"))
  let realname = join_realname (drop 1 token) rest
  check_realname c realname
  update_client p (set_realname realname)

-- The switch on the position of a token. The fourth takes all tokens that are left.
unfoldable pub user_tokens : Cmd → Ptr → List Str → Action (Unit {0})
user_tokens c p (user ∷ host ∷ server ∷ name ∷ rest) = do
  check_username c user
  update_client p (set_username user)
  update_client p (set_servername server_name)
  user_realname c p name rest
user_tokens c p _ = pure tt

unfoldable pub cmd_user : Env → Cmd → Action (Unit {0})
cmd_user env c = do
  me ← self c
  demand (not me.registered) (Reply.err_alreadyregistred me.nickname)
  demand me.pass (Reply.err_needmoreparams me.nickname (codes "PASS"))
  let params = tokens c.cmd_params
  demand (leb 4 (length params)) (Reply.err_needmoreparams me.nickname (codes "USER"))
  p ← or_undefined c.client
  user_tokens c p params
  update_client p set_prefix
  update_client p (set_user_status true)
  now ← self c
  when (now.pass && now.nick && now.user)
      (do update_client p (set_registered_status true); print_welcome env c)

unfoldable pub cmd_ping : Env → Cmd → Action (Unit {0})
cmd_ping env c = do
  me ← self c
  demand me.registered (Reply.err_notregistered me.nickname)
  s ← get
  p ← or_undefined c.client
  update_client p (update_last_ping_sent s.now)
  reply env c (Reply.rpl_ping c.cmd_params)

unfoldable pub cmd_quit : Cmd → Action (Unit {0})
cmd_quit c = do
  s ← get
  when (is_some (get_client c.client_fd s)) (modify (mark_client_for_removal c.client_fd))
