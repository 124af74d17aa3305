-- ===== src/Reply.antt =====
-- include/ReplyCode.hpp: the texts of the replies, as functions of their parts.
use ft_irc_refactor.Base.{◌++◌, Str, codes}

unfoldable pub rpl_welcome : (nick servername : Str) → Str
rpl_welcome nick servername =
    codes "001 " ++ nick ++ codes " :Welcome to the Internet Relay Network, " ++ nick ++ codes "!"

unfoldable pub rpl_yourhost : (nick servername : Str) → Str
rpl_yourhost nick servername = codes "002 " ++ nick ++ codes " :Your host is " ++ servername

unfoldable pub rpl_created : (nick time_msg : Str) → Str
rpl_created nick time_msg = codes "003 " ++ nick ++ codes " :This server was created " ++ time_msg

unfoldable pub rpl_myinfo : Str → Str
rpl_myinfo nick = codes "004 " ++ nick ++ codes " :ft_irc, Simple IRC server for 42 cursus project"

unfoldable pub rpl_notopic : (nick ch : Str) → Str
rpl_notopic nick ch = codes "331 " ++ nick ++ codes " " ++ ch ++ codes " :No topic is set"

unfoldable pub rpl_topic : (nick ch topic : Str) → Str
rpl_topic nick ch topic = codes "332 " ++ nick ++ codes " " ++ ch ++ codes " " ++ topic

unfoldable pub rpl_inviting : (nick target ch : Str) → Str
rpl_inviting nick target ch = codes "341 " ++ nick ++ codes " " ++ ch ++ codes " " ++ target

unfoldable pub rpl_namreply : (nick symbol ch participants : Str) → Str
rpl_namreply nick symbol ch participants =
    codes "353 " ++ nick ++ codes " " ++ symbol ++ codes " " ++ ch ++ codes " :" ++ participants

unfoldable pub rpl_endofnames : (nick ch : Str) → Str
rpl_endofnames nick ch = codes "366 " ++ nick ++ codes " " ++ ch ++ codes " :End of /NAMES list"

unfoldable pub rpl_motdstart : Str → Str
rpl_motdstart nick = codes "375 " ++ nick ++ codes " :start of MOTD command"

unfoldable pub rpl_motd : (nick msg : Str) → Str
rpl_motd nick msg = codes "372 " ++ nick ++ codes " :" ++ msg

unfoldable pub rpl_endofmotd : Str → Str
rpl_endofmotd nick = codes "376 " ++ nick ++ codes " :end of MOTD command"

unfoldable pub err_nosuchnick : (nick target : Str) → Str
err_nosuchnick nick target =
    codes "401 " ++ nick ++ codes " " ++ target ++ codes " :No such nick/channel"

unfoldable pub err_nosuchchannel : (nick ch : Str) → Str
err_nosuchchannel nick ch = codes "403 " ++ nick ++ codes " " ++ ch ++ codes " :No such channel"

unfoldable pub err_cannotsendtochan : (nick target : Str) → Str
err_cannotsendtochan nick target =
    codes "404 " ++ nick ++ codes " " ++ target ++ codes " :Cannot send to channel"

unfoldable pub err_toomanytargets : (nick target : Str) → Str
err_toomanytargets nick target =
    codes "407 "
    ++ nick
    ++ codes " "
    ++ target
    ++ codes " :Duplicate recipients. No message delivered"

unfoldable pub err_norecipient : (nick cmd : Str) → Str
err_norecipient nick cmd =
    codes "411 " ++ nick ++ codes " " ++ codes ":No recipient given (" ++ cmd ++ codes ")"

unfoldable pub err_notexttosend : Str → Str
err_notexttosend nick = codes "412 " ++ nick ++ codes " :No text to send"

unfoldable pub err_unknowncommand : (nick cmd : Str) → Str
err_unknowncommand nick cmd = codes "421 " ++ nick ++ codes " " ++ cmd ++ codes " :Unknown command"

unfoldable pub err_nonicknamegiven : Str → Str
err_nonicknamegiven nick = codes "431 " ++ nick ++ codes " :No nickname given"

unfoldable pub err_erroneusnickname : Str → Str
err_erroneusnickname nick = codes "432 " ++ nick ++ codes " :Erroneous nickname"

unfoldable pub err_nicknameinuse : Str → Str
err_nicknameinuse nick = codes "433 " ++ nick ++ codes " :Nickname is already in use"

-- No space stands between the target and the channel.
unfoldable pub err_usernotinchannel : (nick target ch : Str) → Str
err_usernotinchannel nick target ch =
    codes "441 " ++ nick ++ codes " " ++ target ++ ch ++ codes " :They aren't on that channel"

unfoldable pub err_notonchannel : (nick ch : Str) → Str
err_notonchannel nick ch =
    codes "442 " ++ nick ++ codes " " ++ ch ++ codes " :You're not on that channel"

unfoldable pub err_useronchannel : (nick ch : Str) → Str
err_useronchannel nick ch =
    codes "443 " ++ nick ++ codes " " ++ ch ++ codes " :is already on channel"

unfoldable pub err_notregistered : Str → Str
err_notregistered nick = codes "451 " ++ nick ++ codes " :You have not registered"

unfoldable pub err_needmoreparams : (nick cmd : Str) → Str
err_needmoreparams nick cmd =
    codes "461 " ++ nick ++ codes " " ++ cmd ++ codes " :Not enough parameters"

unfoldable pub err_alreadyregistred : Str → Str
err_alreadyregistred nick = codes "462 " ++ nick ++ codes " :You may not reregister"

unfoldable pub err_passwdmismatch : Str → Str
err_passwdmismatch nick = codes "464 " ++ nick ++ codes " :Password incorrect"

unfoldable pub err_keyset : Str → Str
err_keyset ch = codes "467 " ++ ch ++ codes " :Channel key already set"

unfoldable pub err_channelisfull : (nick ch : Str) → Str
err_channelisfull nick ch =
    codes "471 " ++ nick ++ codes " " ++ ch ++ codes " :Cannot join channel (+l)"

unfoldable pub err_unknownmode : Str → Str
err_unknownmode ch = codes "472 " ++ ch ++ codes " :is unknown mode char to me"

unfoldable pub err_inviteonlychan : (nick ch : Str) → Str
err_inviteonlychan nick ch =
    codes "473 " ++ nick ++ codes " " ++ ch ++ codes " :Cannot join channel (+i)"

unfoldable pub err_badchannelkey : (nick ch : Str) → Str
err_badchannelkey nick ch =
    codes "475 " ++ nick ++ codes " " ++ ch ++ codes " :Cannot join channel (+k)"

unfoldable pub err_badchanmask : (nick ch : Str) → Str
err_badchanmask nick ch = codes "476 " ++ nick ++ codes " " ++ ch ++ codes " :Invalid channel mask"

unfoldable pub err_chanoprivsneeded : (nick ch : Str) → Str
err_chanoprivsneeded nick ch =
    codes "482 " ++ nick ++ codes " " ++ ch ++ codes " :You're not channel operator"

abbrev pub err_pass_password : Str
err_pass_password = codes "Error: incorrected PassWord"

abbrev pub err_invalidparam : Str
err_invalidparam = codes "Error: invalid parameter"

abbrev pub err_errusercmd : Str
err_errusercmd = codes "Error: in Usercmd"

unfoldable pub rpl_nick : Str → Str
rpl_nick new_nick = codes "NICK " ++ new_nick

unfoldable pub rpl_join : Str → Str
rpl_join ch = codes "JOIN " ++ ch

unfoldable pub rpl_kick : (ch target comment : Str) → Str
rpl_kick ch target comment = codes "KICK " ++ ch ++ codes " " ++ target ++ codes " :" ++ comment

unfoldable pub rpl_part : Str → Str
rpl_part ch = codes "PART " ++ ch

unfoldable pub rpl_invite : (target ch : Str) → Str
rpl_invite target ch = codes "INVITE " ++ target ++ codes " " ++ ch

unfoldable pub rpl_privmsg : (receiver msg : Str) → Str
rpl_privmsg receiver msg = codes "PRIVMSG " ++ receiver ++ codes " " ++ msg

unfoldable pub rpl_ping : Str → Str
rpl_ping servername = codes "PONG :" ++ servername
